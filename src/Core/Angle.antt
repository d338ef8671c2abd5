-- ===== src/Core/Angle.antt =====
-- The loops of `winding_number_s3` that bring an angle difference into range.
use otap_signup_validator.Common.{
  ℕ, zero, suc, ◌≡◌, ◌∙◌, ap, sym, subst, ◌⊎◌, true, false, Bool-cases, inl, inr, refl,
}
use otap_signup_validator.Core.Float.{Float32}
use otap_signup_validator.Core.Stokes.{StokesVector, two_pi, wrap_down, wrap_up, angle_step}

-- An angle as `atan2` gives it for coordinates that are numbers, and the range of a difference of two.
abbrev pub IsAngle : {F : Type 0} ⦃fl : Float32 F⦄ → F → Type 0
IsAngle ⦃fl⦄ x = (fl.le (fl.neg fl.pi) x ≡ true) × (fl.le x fl.pi ≡ true)

abbrev pub IsDifference : {F : Type 0} ⦃fl : Float32 F⦄ → F → Type 0
IsDifference ⦃fl⦄ x = (fl.le (fl.neg two_pi) x ≡ true) × (fl.le x two_pi ≡ true)

-- What is relied on of `f32` on numbers: the comparisons are those of a linear order, which do not hold
-- for NaN; 2π is exactly twice π; rounding keeps the order of differences, and a turn taken off a number
-- between π and 2π is exact, so that it keeps a strict order.
pub record Arithmetic (F : Type 0) ⦃fl : Float32 F⦄ : Type 0 where
  pub zero_angle : F
  pub le-trans : (x y z : F) → fl.le x y ≡ true → fl.le y z ≡ true → fl.le x z ≡ true
  pub le-numbers : (x y : F) → fl.le x y ≡ true → (fl.le x x ≡ true) × (fl.le y y ≡ true)
  pub le-gt : (x y : F) → fl.le x y ≡ true → fl.gt x y ≡ false
  pub gt-le : (x y : F) → fl.gt x y ≡ true → fl.le x y ≡ false
  pub linear :
      (x y : F) → fl.le x x ≡ true → fl.le y y ≡ true → fl.gt x y ≡ false → fl.le x y ≡ true
  pub zero_above : fl.gt zero_angle (fl.neg fl.pi) ≡ true
  pub zero_below : fl.le zero_angle fl.pi ≡ true
  pub turn_range : IsDifference {F = F} (two_pi {F = F})
  pub back_range : IsDifference {F = F} (fl.neg two_pi)
  pub half_range : IsDifference {F = F} (fl.neg fl.pi)
  pub turn-turn : fl.sub two_pi two_pi ≡ zero_angle
  pub back-turn : fl.add (fl.neg two_pi) two_pi ≡ zero_angle
  pub pi-turn : fl.sub fl.pi two_pi ≡ fl.neg fl.pi
  pub half-turn : fl.add (fl.neg fl.pi) two_pi ≡ fl.pi
  pub difference : (x y : F) → IsAngle x → IsAngle y → IsDifference (fl.sub x y)
  pub sub-mono :
      (x y : F)
      → IsDifference x
      → IsDifference y
      → fl.le x y ≡ true
      → fl.le (fl.sub x two_pi) (fl.sub y two_pi) ≡ true
  pub sub-strict :
      (x : F)
      → IsDifference x
      → fl.gt x fl.pi ≡ true
      → fl.gt (fl.sub x two_pi) (fl.sub fl.pi two_pi) ≡ true
  pub add-mono :
      (x y : F)
      → IsDifference x
      → IsDifference y
      → fl.le x y ≡ true
      → fl.le (fl.add x two_pi) (fl.add y two_pi) ≡ true

module _ {F : Type 0} ⦃fl : Float32 F⦄ where
  wrap_down-within : (n : ℕ) (d : F) → fl.gt d fl.pi ≡ false → wrap_down n d ≡ d
  unfolding wrap_down
  wrap_down-within zero d h = refl
  wrap_down-within (suc n) d h = rw (h, wrap_down)

  wrap_down-above :
      (n : ℕ) (d : F) → fl.gt d fl.pi ≡ true → wrap_down (suc n) d ≡ wrap_down n (fl.sub d two_pi)
  unfolding wrap_down
  wrap_down-above n d h = rw (h, wrap_down)

  wrap_up-within : (n : ℕ) (d : F) → fl.le d (fl.neg fl.pi) ≡ false → wrap_up n d ≡ d
  unfolding wrap_up
  wrap_up-within zero d h = refl
  wrap_up-within (suc n) d h = rw (h, wrap_up)

  wrap_up-below :
      (n : ℕ) (d : F)
      → fl.le d (fl.neg fl.pi) ≡ true
      → wrap_up (suc n) d ≡ wrap_up n (fl.add d two_pi)
  unfolding wrap_up
  wrap_up-below n d h = rw (h, wrap_up)

  -- The two loops end in the number, with any fuel of at least one round.
  abbrev LandsOn : F → F → Type 0
  LandsOn d v = (n m : ℕ) → wrap_up (suc m) (wrap_down (suc n) d) ≡ v

  -- A number strictly above -π and up to π.
  abbrev pub InRange : F → Type 0
  InRange v = (fl.le v (fl.neg fl.pi) ≡ false) × (fl.le v fl.pi ≡ true)

  module _ (ar : Arithmetic F) (d : F) (range : IsDifference d) where
    from_above : fl.gt d fl.pi ≡ true → LandsOn d (fl.sub d two_pi) × InRange (fl.sub d two_pi)
    from_above above =
        let v = fl.sub d two_pi in
        let down : fl.le v ar.zero_angle ≡ true =
          subst (λ z. fl.le v z ≡ true) ar.turn-turn
            (ar.sub-mono d two_pi range ar.turn_range range.1) in
        let low = ar.le-trans v ar.zero_angle fl.pi down ar.zero_below in
        let high : fl.gt v (fl.neg fl.pi) ≡ true =
          subst (λ z. fl.gt v z ≡ true) ar.pi-turn (ar.sub-strict d range above) in
        let not_below = ar.gt-le v (fl.neg fl.pi) high in
        (
          λ n m.
              ap (wrap_up (suc m))
                (wrap_down-above n d above ∙ wrap_down-within n v (ar.le-gt v fl.pi low))
              ∙ wrap_up-within (suc m) v not_below,
          (not_below, low),
        )

    from_below :
        fl.gt d fl.pi ≡ false
        → fl.le d (fl.neg fl.pi) ≡ true
        → LandsOn d (fl.add d two_pi) × InRange (fl.add d two_pi)
    from_below not_above below =
        let v = fl.add d two_pi in
        let up : fl.le ar.zero_angle v ≡ true =
          subst (λ z. fl.le z v ≡ true) ar.back-turn
            (ar.add-mono (fl.neg two_pi) d ar.back_range range range.0) in
        let low : fl.le v fl.pi ≡ true =
          subst (λ z. fl.le v z ≡ true) ar.half-turn
            (ar.add-mono d (fl.neg fl.pi) range ar.half_range below) in
        let zero_high = ar.gt-le ar.zero_angle (fl.neg fl.pi) ar.zero_above in
        let not_below : fl.le v (fl.neg fl.pi) ≡ false =
          elim (Bool-cases (fl.le v (fl.neg fl.pi))) [
            | inl under ↦ (let lower = ar.le-trans ar.zero_angle v (fl.neg fl.pi) up under in cc)
            | inr over ↦ over
          ] in
        (
          λ n m.
              ap (wrap_up (suc m)) (wrap_down-within (suc n) d not_above)
              ∙ wrap_up-below m d below
              ∙ wrap_up-within m v not_below,
          (not_below, low),
        )

    from_inside : fl.gt d fl.pi ≡ false → fl.le d (fl.neg fl.pi) ≡ false → LandsOn d d × InRange d
    from_inside not_above not_below = (
      λ n m.
          ap (wrap_up (suc m)) (wrap_down-within (suc n) d not_above)
          ∙ wrap_up-within (suc m) d not_below,
      (
        not_below,
        ar.linear d fl.pi (ar.le-numbers d two_pi range.1).0
            (ar.le-numbers ar.zero_angle fl.pi ar.zero_below).1 not_above,
      ),
    )

  -- For samples whose angles are numbers from -π to π, with an arithmetic on numbers as `Arithmetic`
  -- states it of `f32`, the two loops of `winding_number_s3` end, and bring the difference of the angles
  -- into range: whatever fuel of at least one round each is given, the step is the same, it lies strictly
  -- above -π and not above π, and it is the difference itself or differs from it by one turn.
  pub angle_step-InRange :
      (a b : StokesVector F) (n m : ℕ)
      → Arithmetic F
      → IsAngle (fl.atan2 a.s2 a.s1)
      → IsAngle (fl.atan2 b.s2 b.s1)
      → let d = fl.sub (fl.atan2 b.s2 b.s1) (fl.atan2 a.s2 a.s1) in
        (wrap_up (suc m) (wrap_down (suc n) d) ≡ angle_step a b)
        × InRange (angle_step a b)
        × ((angle_step a b ≡ d)
            ⊎ (angle_step a b ≡ fl.sub d two_pi)
            ⊎ (angle_step a b ≡ fl.add d two_pi))
  unfolding angle_step
  angle_step-InRange a b n m ar angle_a angle_b =
      let d = fl.sub (fl.atan2 b.s2 b.s1) (fl.atan2 a.s2 a.s1) in
      let range = ar.difference (fl.atan2 b.s2 b.s1) (fl.atan2 a.s2 a.s1) angle_b angle_a in
      elim (Bool-cases (fl.gt d fl.pi)) [
        | inl above ↦
            let (lands, inside) = from_above ar d range above in
            (
              lands n m ∙ sym (lands 1 1),
              subst InRange (sym (lands 1 1)) inside,
              inr (inl (lands 1 1)),
            )
        | inr not_above ↦ elim (Bool-cases (fl.le d (fl.neg fl.pi))) [
          | inl below ↦
              let (lands, inside) = from_below ar d range not_above below in
              (
                lands n m ∙ sym (lands 1 1),
                subst InRange (sym (lands 1 1)) inside,
                inr (inr (lands 1 1)),
              )
          | inr not_below ↦
              let (lands, inside) = from_inside ar d range not_above not_below in
              (lands n m ∙ sym (lands 1 1), subst InRange (sym (lands 1 1)) inside, inl (lands 1 1))
        ]
      ]
