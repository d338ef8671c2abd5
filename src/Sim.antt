-- ===== src/Sim.antt =====
-- crates/otap-sim/src/lib.rs: the channel with its rotation, its generator and its bit errors.
use Prim.Native.Nat.{bit_xor}
use otap_signup_validator.Common.{
  ℕ, zero, suc, ◌+◌, ◌-◌, ◌%◌, ◌^◌, List, [], ◌∷◌, map, Bool, true, false, shl, shr, ◌==◌,
  if◌then◌else◌,
}
use otap_signup_validator.Common.Int.{pos}
use otap_signup_validator.Core.Float.{Float32}
use otap_signup_validator.Core.Stokes.{StokesVector, new_stokes}
use otap_signup_validator.Core.Transient.{Transient}

-- What the rotations use besides `Float32`: sine, cosine, and the start of a sum.
pub record Trig (F : Type 0) : Type 0 where
  pub sin : F → F
  pub cos : F → F
  pub sum_start : F

-- The `f64` of the bit error rate, its comparison, and the cast to it.
pub record Rate (F D : Type 0) : Type 0 where
  pub zero_rate : D
  pub widen : F → D
  pub less : D → D → Bool

-- `PoincareRotation`, a matrix by its rows.
pub record Row (F : Type 0) : Type 0 where
  pub c1 : F
  pub c2 : F
  pub c3 : F

pub record PoincareRotation (F : Type 0) : Type 0 where
  pub r1 : Row F
  pub r2 : Row F
  pub r3 : Row F

-- `ChannelRng`
pub record ChannelRng : Type 0 where
  pub state : ℕ

-- `ChannelRng::new`
unfoldable pub new_rng : ℕ → ChannelRng
new_rng seed = record { state = if seed == 0 then 0xdeadbeefcafef00d else seed }

-- `ChannelRng::next_u64`
unfoldable pub next_u64 : ChannelRng → ℕ × ChannelRng
next_u64 rng =
    let x = rng.state in
    let y = bit_xor x (shl 64 x 13) in
    let z = bit_xor y (shr y 7) in let s = bit_xor z (shl 64 z 17) in (s, record { state = s })

module _ {F : Type 0} ⦃fl : Float32 F⦄ where
  open fl use {literal, add, sub, mul, div, neg, of_u32}

  abbrev row : F → F → F → Row F
  row a b c = record { c1 = a; c2 = b; c3 = c }

  -- `PoincareRotation::IDENTITY`
  unfoldable pub identity : PoincareRotation F
  identity =
      let o = literal (pos 0) 1 in
      let i = literal (pos 10) 1 in record { r1 = row i o o; r2 = row o i o; r3 = row o o i }

  -- `PoincareRotation::apply`
  unfoldable pub rotate : PoincareRotation F → StokesVector F → StokesVector F
  unfolding new_stokes
  rotate m v =
      let dot = λ (r : Row F). add (add (mul r.c1 v.s1) (mul r.c2 v.s2)) (mul r.c3 v.s3) in
      new_stokes (dot m.r1) (dot m.r2) (dot m.r3)

  -- `ChannelRng::next_signed_unit`
  unfoldable pub next_signed_unit : ChannelRng → F × ChannelRng
  unfolding next_u64
  next_signed_unit rng =
      let (n, rng') = next_u64 rng in
      (
        sub (mul (div (of_u32 (n % 2 ^ 32)) (of_u32 (2 ^ 32 - 1))) (literal (pos 20) 1))
            (literal (pos 10) 1),
        rng',
      )

  -- `ChannelRng::next_unit`
  unfoldable pub next_unit : ChannelRng → F × ChannelRng
  unfolding next_u64
  next_unit rng =
      let (n, rng') = next_u64 rng in (div (of_u32 (n % 2 ^ 32)) (of_u32 (2 ^ 32 - 1)), rng')

module _ {F : Type 0} ⦃fl : Float32 F⦄ ⦃trig : Trig F⦄ where
  open fl use {literal, add, mul, neg}
  open trig use {sin, cos, sum_start}

  -- `PoincareRotation::about_s1`, `about_s2` and `about_s3`
  unfoldable pub about_s1 : F → PoincareRotation F
  about_s1 angle =
      let o = literal (pos 0) 1 in
      let i = literal (pos 10) 1 in
      record {
        r1 = row i o o;
        r2 = row o (cos angle) (neg (sin angle));
        r3 = row o (sin angle) (cos angle);
      }

  unfoldable pub about_s2 : F → PoincareRotation F
  about_s2 angle =
      let o = literal (pos 0) 1 in
      let i = literal (pos 10) 1 in
      record {
        r1 = row (cos angle) o (sin angle);
        r2 = row o i o;
        r3 = row (neg (sin angle)) o (cos angle);
      }

  unfoldable pub about_s3 : F → PoincareRotation F
  about_s3 angle =
      let o = literal (pos 0) 1 in
      let i = literal (pos 10) 1 in
      record {
        r1 = row (cos angle) (neg (sin angle)) o;
        r2 = row (sin angle) (cos angle) o;
        r3 = row o o i;
      }

  -- `PoincareRotation::then`: `m` first.
  unfoldable pub rotation_then : PoincareRotation F → PoincareRotation F → PoincareRotation F
  rotation_then m other =
      let entry = λ (r : Row F) (a b c : F).
        add (add (add sum_start (mul r.c1 a)) (mul r.c2 b)) (mul r.c3 c) in
      let times = λ (r : Row F).
        row (entry r m.r1.c1 m.r2.c1 m.r3.c1) (entry r m.r1.c2 m.r2.c2 m.r3.c2)
          (entry r m.r1.c3 m.r2.c3 m.r3.c3) in
      record { r1 = times other.r1; r2 = times other.r2; r3 = times other.r3 }

-- `Channel`
pub record Channel (F D : Type 0) : Type 0 where
  pub pmd_rotation : PoincareRotation F
  pub bit_error_rate : D
  pub rng : ChannelRng

module _ {F D : Type 0} ⦃fl : Float32 F⦄ ⦃rate : Rate F D⦄ where
  open rate use {zero_rate}

  -- `Channel::perfect` and `with_pmd`
  unfoldable pub perfect : Channel F D
  unfolding identity new_rng
  perfect = record { pmd_rotation = identity; bit_error_rate = zero_rate; rng = new_rng 1 }

  unfoldable pub with_pmd : PoincareRotation F → Channel F D
  unfolding new_rng
  with_pmd rotation = record {
    pmd_rotation = rotation;
    bit_error_rate = zero_rate;
    rng = new_rng 42;
  }

module _ {F D : Type 0} ⦃fl : Float32 F⦄ ⦃trig : Trig F⦄ ⦃rate : Rate F D⦄ where
  open fl use {mul, pi}
  open rate use {zero_rate}

  -- `Channel::random_pmd`
  unfoldable pub random_pmd : ℕ → Channel F D
  unfolding new_rng next_signed_unit about_s1 about_s2 about_s3 rotation_then
  random_pmd seed =
      let (u, rng₁) = next_signed_unit {F = F} (new_rng seed) in
      let (v, rng₂) = next_signed_unit {F = F} rng₁ in
      let (w, rng₃) = next_signed_unit {F = F} rng₂ in
      record {
        pmd_rotation =
            rotation_then (rotation_then (about_s1 (mul u pi)) (about_s2 (mul v pi)))
              (about_s3 (mul w pi));
        bit_error_rate = zero_rate;
        rng = rng₃;
      }

module _ {F : Type 0} ⦃fl : Float32 F⦄ where
  -- The Transient with its trajectory rotated.
  abbrev pub rotated : PoincareRotation F → Transient F → Transient F
  rotated m t = record t {
    polarization = record { samples = map (rotate m) t.polarization.samples };
  }

module _ (F : Type 0) {D : Type 0} ⦃fl : Float32 F⦄ ⦃rate : Rate F D⦄ where
  open rate use {widen, less}

  -- The loop over the bits of a byte from `bit` on, with `left` of them to go.
  unfoldable pub flip_bits : D → ℕ → ℕ → ℕ → ChannelRng → ℕ × ChannelRng
  unfolding next_unit
  flip_bits rate zero bit byte rng = (byte, rng)
  flip_bits rate (suc left) bit byte rng =
      let (u, rng') = next_unit {F = F} rng in
      flip_bits rate left (bit + 1)
        (if less (widen u) rate then bit_xor byte (shl 8 1 bit) else byte) rng'

  -- The loop over the bytes of the payload.
  unfoldable pub flip_payload : D → List ℕ → ChannelRng → List ℕ × ChannelRng
  unfolding flip_bits
  flip_payload rate [] rng = ([], rng)
  flip_payload rate (byte ∷ bytes) rng =
      let (byte', rng') = flip_bits rate 8 0 byte rng in
      let (bytes', rng'') = flip_payload rate bytes rng' in (byte' ∷ bytes', rng'')

module _ {F D : Type 0} ⦃fl : Float32 F⦄ ⦃rate : Rate F D⦄ where
  open rate use {zero_rate, less}

  -- `Channel::transmit`
  unfoldable pub transmit : Channel F D → Transient F → Transient F × Channel F D
  unfolding flip_payload rotate
  transmit channel t =
      let turned = rotated channel.pmd_rotation t in
      elim (less zero_rate channel.bit_error_rate) [
        | true ↦
            (let (payload, rng) = flip_payload F channel.bit_error_rate t.payload channel.rng in
              (record turned { payload = payload }, record channel { rng = rng }))
        | false ↦ (turned, channel)
      ]
