-- ===== src/Modq/Ring/Unchecked.antt =====
-- `TxRing::submit_unchecked` of crates/otap-modq/src/ring.rs beside `submit`.
use otap_signup_validator.Common.{
  ℕ, zero, suc, ◌%◌, ◌≤◌, ◌≡◌, arith, List, length, some, Option-cases, Result, inl, inr,
}
use otap_signup_validator.Modq.Bar.{BarMapping, RingError}
use otap_signup_validator.Modq.Ring.{
  TxRing, slot_base, slot_payload_capacity, spin, wait_free, submit_within, submit,
  submit_unchecked, max_spins,
}

-- What the loop without a limit ends with, the loop with as many rounds or more ends with.
spin-wait_free :
    (device : BarMapping → BarMapping) (n m base index : ℕ) (bar : BarMapping)
    {waited : Result BarMapping RingError}
    → n ≤ m
    → wait_free device n base bar ≡ some waited
    → spin device m base index bar ≡ waited
unfolding wait_free spin
spin-wait_free device zero zero base index bar le h = ground arith
spin-wait_free device zero (suc m) base index bar le h = ground arith
spin-wait_free device (suc n) zero base index bar le h = absurd (omega arith)
spin-wait_free device (suc n) (suc m) base index bar {waited} le h =
    let later = spin-wait_free device n m base index (device bar) {waited = waited} (omega arith) in
    ground (arith, later)

module _ (device : BarMapping → BarMapping) (tx : TxRing) (bar : BarMapping)
    (payload : List ℕ) where
  -- Where the payload fits a slot, a call of `submit_unchecked` that ends within the rounds that `submit`
  -- waits ends as `submit` does, in its answer, its ring and its region, panics included.
  pub submit_unchecked-submit :
      {rounds : ℕ} {answer : Result (ℕ × TxRing × BarMapping) RingError}
      → length payload ≤ slot_payload_capacity tx
      → rounds ≤ max_spins
      → submit_unchecked device rounds tx bar payload ≡ some answer
      → submit device tx bar payload ≡ answer
  unfolding submit_unchecked submit submit_within slot_payload_capacity
  submit_unchecked-submit {rounds} {answer} fits few h =
      let base = slot_base tx.slot_stride (tx.tail % tx.depth) in
      elim (Option-cases (wait_free device rounds base bar)) [
        | inl forever ↦ ground (arith, forever)
        | inr (waited, ended) ↦
            let same =
              spin-wait_free device rounds max_spins base (tx.tail % tx.depth) bar few ended in
            ground (arith, ended, same)
      ]
