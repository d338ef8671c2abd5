-- ===== src/Modq/Ring/Device.antt =====
-- What a device of crates/otap-modq does to the region in the protocol of `CompletionRing::poll`: it marks
-- submissions as done, in any order, and writes the registers; the release of a slot is left to `poll`. The
-- consumers of src/bin release slots themselves, for which Consumer stands, and Waits is about any device.
use native.Mathlib.Decide.{ℕ_discrete}
use otap_signup_validator.Common.{ℕ, ◌+◌, ◌%◌, ◌≤◌, ◌<◌, ◌≡◌, ◌∙◌, arith, sym, subst, inr, length}
use otap_signup_validator.Modq.Bar.{BarMapping}
use otap_signup_validator.Modq.Bar.Words.{put, word_at-put_self, word_at-put_apart, length-put}
use otap_signup_validator.Modq.Ring.{
  slot_free, slot_ready, slot_done, slot_hdr_status, slot_hdr_sid, slot_base,
}
use otap_signup_validator.Modq.Ring.Geometry.{slot_field_inside}
use otap_signup_validator.Modq.Ring.Slots.{
  status_of, sid_of, Slots, InFlight-same, Elsewhere-InFlight, Elsewhere-vacant, put-Elsewhere,
  word_at-put_register,
}

-- What the device does to the region in a step: nothing, a register, or a submission completed.
pub data DeviceStep (stride depth : ℕ) (bar : BarMapping) : BarMapping → Type 0 where
  idle : DeviceStep stride depth bar bar
  set_register :
      (offset value : ℕ) → offset + 4 ≤ 0x1000 → DeviceStep stride depth bar (put bar offset value)
  complete :
      (i : ℕ)
      → i < depth
      → status_of stride bar i ≡ slot_ready
      → DeviceStep stride depth bar (put bar (slot_base stride i + slot_hdr_status) slot_done)

module _ {stride depth head tail : ℕ} {bar : BarMapping}
    (s : Slots stride depth head tail bar) where
  completed-Slots :
      (i : ℕ)
      → i < depth
      → status_of stride bar i ≡ slot_ready
      → Slots stride depth head tail (put bar (slot_base stride i + slot_hdr_status) slot_done)
  completed-Slots i hi ready =
      let bar' = put bar (slot_base stride i + slot_hdr_status) slot_done in
      let same =
        put-Elsewhere stride i slot_hdr_status slot_done bar (omega (arith, s.room_for_header)) in
      let inside =
        slot_field_inside stride depth i slot_hdr_status 4 (length bar.memory) hi
          (omega (arith, s.room_for_header)) s.region in
      let done =
        word_at-put_self bar (slot_base stride i + slot_hdr_status) slot_done inside
          (omega arith) in
      let sid =
        word_at-put_apart bar (slot_base stride i + slot_hdr_status)
          (slot_base stride i + slot_hdr_sid) slot_done (inr (omega arith)) in
      record {
        some_slot = s.some_slot;
        room_for_header = s.room_for_header;
        ordered = s.ordered;
        bounded = s.bounded;
        region =
            omega
              (arith, s.region, length-put bar (slot_base stride i + slot_hdr_status) slot_done);
        in_flight = λ k hk kt. elim (ℕ_discrete i (k % depth)) [
          | yes e ↦ record {
            taken = inr (subst (λ j. status_of stride bar' j ≡ slot_done) e done);
            numbered =
                subst (λ j. sid_of stride bar' j ≡ sid_of stride bar j) e sid
                ∙ (s.in_flight k hk kt).numbered;
          }
          | no ne ↦ Elsewhere-InFlight s i k bar' same ne hk kt
        ];
        vacant = λ k tk kd. elim (ℕ_discrete i (k % depth)) [
          | yes e ↦
              (let free =
                  subst (λ j. status_of stride bar j ≡ slot_free) (sym e) (s.vacant k tk kd) in
                omega (arith, free, ready))
          | no ne ↦ Elsewhere-vacant s i k bar' same ne tk kd
        ];
      }

  registered-Slots : (o v : ℕ) → o + 4 ≤ 0x1000 → Slots stride depth head tail (put bar o v)
  registered-Slots o v h = record {
    some_slot = s.some_slot;
    room_for_header = s.room_for_header;
    ordered = s.ordered;
    bounded = s.bounded;
    region = omega (arith, s.region, length-put bar o v);
    in_flight = λ k hk kt.
        InFlight-same (word_at-put_register stride (k % depth) o v slot_hdr_status bar h)
          (word_at-put_register stride (k % depth) o v slot_hdr_sid bar h) (s.in_flight k hk kt);
    vacant = λ k tk kd.
        word_at-put_register stride (k % depth) o v slot_hdr_status bar h ∙ s.vacant k tk kd;
  }

  -- A step of the device keeps the invariant.
  pub device-Slots :
      (bar' : BarMapping) → DeviceStep stride depth bar bar' → Slots stride depth head tail bar'
  device-Slots bar' idle = s
  device-Slots bar' (set_register o v h) = registered-Slots o v h
  device-Slots bar' (complete i hi ready) = completed-Slots i hi ready
