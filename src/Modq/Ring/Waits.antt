-- ===== src/Modq/Ring/Waits.antt =====
-- The loop of `TxRing::submit` in crates/otap-modq/src/ring.rs beside any device: it releases slots or
-- not, in whatever protocol.
use native.Mathlib.Decide.{ℕ_discrete}
use otap_signup_validator.Common.{
  ℕ, zero, suc, ◌%◌, ◌≡◌, ◌≢◌, ◌⊎◌, inl, inr, refl, arith, length, ok, err, ==-ne,
}
use otap_signup_validator.Modq.Bar.{BarMapping, timeout}
use otap_signup_validator.Modq.Ring.{slot_free, slot_base, spin}
use otap_signup_validator.Modq.Ring.Slots.{status_of, Placed}
use otap_signup_validator.Modq.Ring.Spin.{read-Placed}

-- Slot `i` of the region is free, or is not and becomes free for the first time after at most so many
-- rounds of the device, which leave the other region behind.
pub data Frees (device : BarMapping → BarMapping) (stride i : ℕ)
    : ℕ → BarMapping → BarMapping → Type 0 where
  now :
      {n : ℕ} {bar : BarMapping}
      → status_of stride bar i ≡ slot_free
      → Frees device stride i n bar bar
  later :
      {n : ℕ} {bar freed : BarMapping}
      → status_of stride bar i ≢ slot_free
      → Frees device stride i n (device bar) freed
      → Frees device stride i (suc n) bar freed

-- Slot `i` of the region is not free, and is not after any of so many rounds of the device.
pub data Busy (device : BarMapping → BarMapping) (stride i : ℕ) : ℕ → BarMapping → Type 0 where
  still : {bar : BarMapping} → status_of stride bar i ≢ slot_free → Busy device stride i 0 bar
  again :
      {n : ℕ} {bar : BarMapping}
      → status_of stride bar i ≢ slot_free
      → Busy device stride i n (device bar)
      → Busy device stride i (suc n) bar

-- The device does not change the size of the region.
abbrev pub KeepsSize : (BarMapping → BarMapping) → Type 0
KeepsSize device = (b : BarMapping) → length (device b).memory ≡ length b.memory

module _ (stride depth : ℕ) (device : BarMapping → BarMapping) (keeps : KeepsSize device)
    (k : ℕ) where
  -- What the loop ends with, on the slot of submission `k`.
  abbrev pub Waited : ℕ → BarMapping → Type 0
  Waited n bar =
      ((freed : BarMapping) × Frees device stride (k % depth) n bar freed
        × Placed stride depth freed
        × (spin device n (slot_base stride (k % depth)) (k % depth) bar ≡ ok freed))
      ⊎ (Busy device stride (k % depth) n bar
          × (spin device n (slot_base stride (k % depth)) (k % depth) bar
              ≡ err (timeout (k % depth))))

  device-Placed : (bar : BarMapping) → Placed stride depth bar → Placed stride depth (device bar)
  device-Placed bar p = record {
    some_slot = p.some_slot;
    room_for_header = p.room_for_header;
    region = omega (arith, p.region, keeps bar);
  }

  pub spin_ends : (n : ℕ) (bar : BarMapping) → Placed stride depth bar → Waited n bar
  unfolding spin
  spin_ends zero bar p = elim (ℕ_discrete (status_of stride bar (k % depth)) slot_free) [
    | yes free ↦ inl (bar, now free, p, rw (read-Placed p k, free) refl)
    | no busy ↦
        let taken = ==-ne (status_of stride bar (k % depth)) slot_free busy in
        inr (still busy, rw (read-Placed p k, taken) refl)
  ]
  spin_ends (suc n) bar p = elim (ℕ_discrete (status_of stride bar (k % depth)) slot_free) [
    | yes free ↦ inl (bar, now free, p, rw (read-Placed p k, free) refl)
    | no busy ↦ elim (spin_ends n (device bar) (device-Placed bar p)) [
      | inl (freed, frees, p', ended) ↦
          inl (freed, later busy frees, p', rw (read-Placed p k) (ground (arith, busy, ended)))
      | inr (never, late) ↦
          inr (again busy never, rw (read-Placed p k) (ground (arith, busy, late)))
    ]
  ]
