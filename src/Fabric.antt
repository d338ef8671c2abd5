-- ===== src/Fabric.antt =====
-- crates/otap-fabric/src/lib.rs: two drivers joined by a channel in each direction.
pub mod Arrivals
pub mod Pump
use otap_signup_validator.Common.{ℕ, List, [], ◌∷◌, length}
use otap_signup_validator.Core.Float.{Float32}
use otap_signup_validator.Core.Transient.{Transient}
use otap_signup_validator.Crypto.Hmac.{Hmac}
use otap_signup_validator.Obg.Queues.{SendQueue, CompletionQueue}
use otap_signup_validator.Obg.Driver.{SoftDriver, transmit_pending, receive}
use otap_signup_validator.Sim.{Trig, Rate, Channel, perfect, random_pmd, transmit}

-- `Fabric`
pub record Fabric (F D : Type 0) : Type 0 where
  pub a_to_b : Channel F D
  pub b_to_a : Channel F D

-- One end: its driver and its two queues.
pub record End (F : Type 0) : Type 0 where
  pub driver : SoftDriver F
  pub send : SendQueue
  pub completions : CompletionQueue

module _ {F D : Type 0} ⦃fl : Float32 F⦄ ⦃trig : Trig F⦄ ⦃rate : Rate F D⦄ where
  -- `Fabric::with_random_pmd`
  unfoldable pub with_random_pmd : ℕ → ℕ → Fabric F D
  unfolding random_pmd
  with_random_pmd seed_ab seed_ba = record {
    a_to_b = random_pmd seed_ab;
    b_to_a = random_pmd seed_ba;
  }

module _ {F D : Type 0} ⦃fl : Float32 F⦄ ⦃rate : Rate F D⦄ where
  -- `Fabric::perfect`
  unfoldable pub perfect_fabric : Fabric F D
  unfolding perfect
  perfect_fabric = record { a_to_b = perfect; b_to_a = perfect }

module _ {F D : Type 0} ⦃fl : Float32 F⦄ ⦃rate : Rate F D⦄ ⦃hm : Hmac⦄ where
  -- The loop of a pump over what is sent.
  unfoldable pub deliver :
      Channel F D
      → SoftDriver F
      → List (Transient F × ℕ)
      → CompletionQueue
      → Channel F D × CompletionQueue
  unfolding transmit receive
  deliver channel driver [] cq = (channel, cq)
  deliver channel driver ((transient, _) ∷ outgoing) cq =
      let (post_channel, channel') = transmit channel transient in
      deliver channel' driver outgoing (receive driver post_channel cq)

  -- A pump in one direction: how many were delivered, the channel, the sender and the receiver.
  unfoldable pub pump : Channel F D → End F → End F → ℕ × Channel F D × End F × End F
  unfolding deliver transmit_pending
  pump channel from to =
      let (outgoing, driver, send) = transmit_pending from.driver from.send in
      let (channel', cq) = deliver channel to.driver outgoing to.completions in
      (
        length outgoing,
        channel',
        record from { driver = driver; send = send },
        record to { completions = cq },
      )

  -- `Fabric::pump_a_to_b` and `pump_b_to_a`
  unfoldable pub pump_a_to_b : Fabric F D → End F → End F → ℕ × Fabric F D × End F × End F
  unfolding pump
  pump_a_to_b fabric a b =
      let (n, channel, a', b') = pump fabric.a_to_b a b in
      (n, record fabric { a_to_b = channel }, a', b')

  unfoldable pub pump_b_to_a : Fabric F D → End F → End F → ℕ × Fabric F D × End F × End F
  unfolding pump
  pump_b_to_a fabric a b =
      let (n, channel, b', a') = pump fabric.b_to_a b a in
      (n, record fabric { b_to_a = channel }, a', b')

  -- `Fabric::pump_both`
  unfoldable pub pump_both : Fabric F D → End F → End F → (ℕ × ℕ) × Fabric F D × End F × End F
  unfolding pump_a_to_b pump_b_to_a
  pump_both fabric a b =
      let (ab, fabric₁, a₁, b₁) = pump_a_to_b fabric a b in
      let (ba, fabric₂, a₂, b₂) = pump_b_to_a fabric₁ a₁ b₁ in ((ab, ba), fabric₂, a₂, b₂)
