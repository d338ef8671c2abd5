-- ===== src/Modq/Ring/Slots.antt =====
-- The state of the rings of crates/otap-modq/src/ring.rs and their invariant.
use native.Mathlib.Decide.{dec_lt}
use native.Mathlib.Nat.{add-mod_right, mod-lt}
use otap_signup_validator.Common.{
  ℕ, ◌+◌, ◌%◌, ◌^◌, ◌≤◌, ◌<◌, ◌≡◌, ◌≢◌, ◌∙◌, arith, sym, subst, ap, ◌⊎◌, inl, inr, List, length,
}
use otap_signup_validator.Modq.Bar.{BarMapping}
use otap_signup_validator.Modq.Bar.Words.{
  word_at, put, put_bytes, word_at-put_apart, word_at-put_bytes,
}
use otap_signup_validator.Modq.Ring.Geometry.{slot_field_inside, slot_fields_apart, window_apart}
use otap_signup_validator.Modq.Ring.{
  slot_free, slot_ready, slot_done, slot_hdr_status, slot_hdr_sid, slot_base,
}

abbrev pub status_of : ℕ → BarMapping → ℕ → ℕ
status_of stride bar i = word_at bar (slot_base stride i + slot_hdr_status)

abbrev pub sid_of : ℕ → BarMapping → ℕ → ℕ
sid_of stride bar i = word_at bar (slot_base stride i + slot_hdr_sid)

-- The slot of the submission with number `k`, in flight.
pub record InFlight (stride depth : ℕ) (bar : BarMapping) (k : ℕ) : Type 0 where
  pub taken :
      (status_of stride bar (k % depth) ≡ slot_ready)
      ⊎ (status_of stride bar (k % depth) ≡ slot_done)
  pub numbered : sid_of stride bar (k % depth) ≡ k % 2 ^ 32

-- The region while the submissions from `head` on and before `tail` are in flight.
pub record Slots (stride depth head tail : ℕ) (bar : BarMapping) : Type 0 where
  pub some_slot : 0 < depth
  pub room_for_header : 16 < stride
  pub region : slot_base stride depth ≤ length bar.memory
  pub ordered : head ≤ tail
  pub bounded : tail ≤ head + depth
  pub in_flight : (k : ℕ) → head ≤ k → k < tail → InFlight stride depth bar k
  pub vacant : (k : ℕ) → tail ≤ k → k < head + depth → status_of stride bar (k % depth) ≡ slot_free

-- The slots have room for their headers and lie inside the region, whatever they hold.
pub record Placed (stride depth : ℕ) (bar : BarMapping) : Type 0 where
  pub some_slot : 0 < depth
  pub room_for_header : 16 < stride
  pub region : slot_base stride depth ≤ length bar.memory

pub Slots-Placed :
    {stride depth head tail : ℕ} {bar : BarMapping}
    → Slots stride depth head tail bar
    → Placed stride depth bar
Slots-Placed s = record {
  some_slot = s.some_slot;
  room_for_header = s.room_for_header;
  region = s.region;
}

pub Placed-inside :
    {stride depth : ℕ} {bar : BarMapping}
    → Placed stride depth bar
    → (k a n : ℕ) → a + n ≤ stride
    → slot_base stride (k % depth) + a + n ≤ length bar.memory
Placed-inside {stride} {depth} {bar} p k a n h =
    slot_field_inside stride depth (k % depth) a n (length bar.memory) (mod-lt k p.some_slot) h
      p.region

-- The two regions agree on the words of every slot but one.
abbrev pub Elsewhere : ℕ → ℕ → BarMapping → BarMapping → Type 0
Elsewhere stride i bar bar' =
    (j a : ℕ)
    → i ≢ j
    → a + 4 ≤ stride
    → word_at bar' (slot_base stride j + a) ≡ word_at bar (slot_base stride j + a)

pub put-Elsewhere :
    (stride i a v : ℕ) (bar : BarMapping)
    → a + 4 ≤ stride
    → Elsewhere stride i bar (put bar (slot_base stride i + a) v)
put-Elsewhere stride i a v bar fits j b ne hb =
    word_at-put_apart bar (slot_base stride i + a) (slot_base stride j + b) v
      (slot_fields_apart stride i j a 4 b 4 ne fits hb)

pub put_bytes-Elsewhere :
    (stride i a : ℕ) (payload : List ℕ) (bar : BarMapping)
    → a + length payload ≤ stride
    → Elsewhere stride i bar (put_bytes bar (slot_base stride i + a) payload)
put_bytes-Elsewhere stride i a payload bar fits j b ne hb =
    word_at-put_bytes bar (slot_base stride i + a) (slot_base stride j + b) payload
      (slot_fields_apart stride i j a (length payload) b 4 ne fits hb)

-- A register stands before the slots.
pub word_at-put_register :
    (stride j o v a : ℕ) (bar : BarMapping)
    → o + 4 ≤ 0x1000
    → word_at (put bar o v) (slot_base stride j + a) ≡ word_at bar (slot_base stride j + a)
word_at-put_register stride j o v a bar h =
    word_at-put_apart bar o (slot_base stride j + a) v (inr (omega arith))

pub InFlight-same :
    {stride depth k : ℕ} {bar bar' : BarMapping}
    → status_of stride bar' (k % depth) ≡ status_of stride bar (k % depth)
    → sid_of stride bar' (k % depth) ≡ sid_of stride bar (k % depth)
    → InFlight stride depth bar k
    → InFlight stride depth bar' k
InFlight-same es ei f =
    let t = f.taken in record { taken = ground arith; numbered = ei ∙ f.numbered }

module _ {stride depth head tail : ℕ} {bar : BarMapping}
    (s : Slots stride depth head tail bar) where
  pub Elsewhere-InFlight :
      (i k : ℕ) (bar' : BarMapping)
      → Elsewhere stride i bar bar'
      → i ≢ k % depth
      → head ≤ k
      → k < tail
      → InFlight stride depth bar' k
  Elsewhere-InFlight i k bar' same ne hk kt =
      InFlight-same (same (k % depth) slot_hdr_status ne (omega (arith, s.room_for_header)))
        (same (k % depth) slot_hdr_sid ne (omega (arith, s.room_for_header))) (s.in_flight k hk kt)

  pub Elsewhere-vacant :
      (i k : ℕ) (bar' : BarMapping)
      → Elsewhere stride i bar bar'
      → i ≢ k % depth
      → tail ≤ k
      → k < head + depth
      → status_of stride bar' (k % depth) ≡ slot_free
  Elsewhere-vacant i k bar' same ne tk kd =
      same (k % depth) slot_hdr_status ne (omega (arith, s.room_for_header)) ∙ s.vacant k tk kd

  -- The slot of the next submission is written.
  pub submitted-Slots :
      (bar' : BarMapping)
      → tail < head + depth
      → Elsewhere stride (tail % depth) bar bar'
      → length bar'.memory ≡ length bar.memory
      → status_of stride bar' (tail % depth) ≡ slot_ready
      → sid_of stride bar' (tail % depth) ≡ tail % 2 ^ 32
      → Slots stride depth head (tail + 1) bar'
  submitted-Slots bar' room same len ready sid = record {
    some_slot = s.some_slot;
    room_for_header = s.room_for_header;
    region = omega (arith, s.region, len);
    ordered = omega (arith, s.ordered);
    bounded = omega arith;
    in_flight = λ k hk kt. elim (dec_lt k tail) [
      | yes old ↦
          Elsewhere-InFlight (tail % depth) k bar' same
            (window_apart depth head tail k s.ordered room hk (omega arith) (λ e. omega (arith, e)))
            hk old
      | no new ↦
          let latest : tail ≡ k = omega arith in
          subst (λ k. InFlight stride depth bar' k) latest
            (record { taken = inl ready; numbered = sid })
    ];
    vacant = λ k tk kd.
        Elsewhere-vacant (tail % depth) k bar' same
          (window_apart depth head tail k s.ordered room (omega (arith, s.ordered)) kd
            (λ e. omega (arith, e)))
          (omega arith) kd;
  }

  -- The slot of the oldest submission is released.
  pub released-Slots :
      (bar' : BarMapping)
      → head < tail
      → Elsewhere stride (head % depth) bar bar'
      → length bar'.memory ≡ length bar.memory
      → status_of stride bar' (head % depth) ≡ slot_free
      → Slots stride depth (head + 1) tail bar'
  released-Slots bar' some_pending same len free = record {
    some_slot = s.some_slot;
    room_for_header = s.room_for_header;
    region = omega (arith, s.region, len);
    ordered = omega arith;
    bounded = omega (arith, s.bounded);
    in_flight = λ k hk kt.
        Elsewhere-InFlight (head % depth) k bar' same
          (window_apart depth head head k (omega arith) (omega (arith, s.some_slot)) (omega arith)
            (omega (arith, s.bounded)) (λ e. omega (arith, e)))
          (omega arith) kt;
    vacant = λ k tk kd. elim (dec_lt k (head + depth)) [
      | yes old ↦
          Elsewhere-vacant (head % depth) k bar' same
            (window_apart depth head head k (omega arith) (omega (arith, s.some_slot)) (omega arith)
              old (λ e. omega (arith, e)))
            tk old
      | no new ↦
          let latest : k ≡ head + depth = omega arith in
          subst (λ i. status_of stride bar' i ≡ slot_free)
            (sym (ap (λ k. k % depth) latest ∙ add-mod_right head depth)) free
    ];
  }
