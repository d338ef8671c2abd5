-- ===== src/Modq/Ring/Spin.antt =====
-- The loop of `TxRing::submit` in crates/otap-modq/src/ring.rs that waits for a slot, and the writes
-- that follow it.
use native.Mathlib.Nat.{add-mod_right}
use otap_signup_validator.Common.{
  ℕ, zero, suc, ◌+◌, ◌%◌, ◌≤◌, ◌<◌, ◌≡◌, ◌≢◌, ◌∙◌, arith, sym, subst, ap, refl, ◌⊎◌, length, ok,
  err,
}
use otap_signup_validator.Modq.Bar.{BarMapping, timeout, read32}
use otap_signup_validator.Modq.Bar.Words.{read32_at}
use otap_signup_validator.Modq.Ring.{
  slot_free, slot_ready, slot_done, slot_hdr_status, slot_base, spin,
}
use otap_signup_validator.Modq.Ring.Slots.{status_of, Slots, Placed, Slots-Placed, Placed-inside}
use otap_signup_validator.Modq.Ring.Device.{DeviceStep, device-Slots}

pub index_inside :
    {stride depth head tail : ℕ} {bar : BarMapping}
    → Slots stride depth head tail bar
    → (k a n : ℕ) → a + n ≤ stride
    → slot_base stride (k % depth) + a + n ≤ length bar.memory
index_inside s = Placed-inside (Slots-Placed s)

pub read-Placed :
    {stride depth : ℕ} {bar : BarMapping}
    → Placed stride depth bar
    → (k : ℕ)
    → read32 bar (slot_base stride (k % depth) + slot_hdr_status)
      ≡ ok (status_of stride bar (k % depth))
read-Placed {stride} {depth} {bar} p k =
    read32_at bar (slot_base stride (k % depth) + slot_hdr_status)
      (Placed-inside p k slot_hdr_status 4 (omega (arith, p.room_for_header)))

pub read_status :
    {stride depth head tail : ℕ} {bar : BarMapping}
    → Slots stride depth head tail bar
    → (k : ℕ)
    → read32 bar (slot_base stride (k % depth) + slot_hdr_status)
      ≡ ok (status_of stride bar (k % depth))
read_status s = read-Placed (Slots-Placed s)

-- With a slot vacant the loop ends in its first round.
pub spin_vacant :
    {stride depth head tail : ℕ} {bar : BarMapping} (device : BarMapping → BarMapping) (n : ℕ)
    → Slots stride depth head tail bar
    → tail < head + depth
    → spin device n (slot_base stride (tail % depth)) (tail % depth) bar ≡ ok bar
unfolding spin
spin_vacant {tail} device zero s room =
    rw (read_status s tail, s.vacant tail (omega arith) room) refl
spin_vacant {tail} device (suc n) s room =
    rw (read_status s tail, s.vacant tail (omega arith) room) refl

full_status :
    {stride depth head tail : ℕ} {bar : BarMapping}
    → Slots stride depth head tail bar
    → tail ≡ head + depth
    → status_of stride bar (tail % depth) ≢ slot_free
full_status {stride} {depth} {head} {tail} {bar} s full free =
    let same : head % depth ≡ tail % depth =
      sym (ap (λ k. k % depth) full ∙ add-mod_right head depth) in
    let taken =
      subst (λ i. (status_of stride bar i ≡ slot_ready) ⊎ (status_of stride bar i ≡ slot_done)) same
        (s.in_flight head (omega arith) (omega (arith, s.some_slot))).taken in
    ground arith

-- With every slot taken the loop runs out of rounds, since the device releases no slot.
pub spin_full :
    {stride depth head tail : ℕ} {bar : BarMapping} (device : BarMapping → BarMapping) (n : ℕ)
    → ((b : BarMapping) → DeviceStep stride depth b (device b))
    → Slots stride depth head tail bar
    → tail ≡ head + depth
    → spin device n (slot_base stride (tail % depth)) (tail % depth) bar
      ≡ err (timeout (tail % depth))
unfolding spin
spin_full {tail} device zero works s full =
    let busy = full_status s full in rw (read_status s tail) (ground arith)
spin_full {stride} {depth} {tail} {bar} device (suc n) works s full =
    let busy = full_status s full in
    let rest = spin_full device n works (device-Slots s (device bar) (works bar)) full in
    rw (read_status s tail) (ground arith)
