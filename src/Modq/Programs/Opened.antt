-- ===== src/Modq/Programs/Opened.antt =====
-- A queue of crates/otap-modq/src/bin/modq_loopback.rs or modq_bench.rs when it is opened.
use otap_signup_validator.Common.{
  ℕ, ◌+◌, ◌-◌, ◌^◌, ◌<◌, ◌≡◌, ◌⊎◌, inl, inr, ◌∙◌, arith, ap, sym, subst, List, true, ok, err,
}
use otap_signup_validator.Modq.Ring.{with_params}
use otap_signup_validator.Modq.Queue.{
  Os, ModqConfig, loopback, ModqError, ModqQueue, is_power_of_two, open_queue,
}
use otap_signup_validator.Modq.Queue.Freed.{stride_of-open_stride}
use otap_signup_validator.Modq.Queue.Opened.{MapsWhole, open_queue_lem}
use otap_signup_validator.Modq.Consumer.{consumer_stride}
use otap_signup_validator.Modq.Consumer.Served.{Served}
use otap_signup_validator.Modq.Consumer.Loopback.{consumer_stride-open_stride, opened-InService}
use otap_signup_validator.Modq.Programs.Accepted.{Lazily}

pub opened-Lazily :
    (os : Os) (m : MapsWhole os) (config : ModqConfig) (name : List ℕ)
    → config.transport ≡ loopback name
    → is_power_of_two config.ring_depth ≡ true
    → config.slot_size + 79 < 2 ^ 32
    → ((e : ModqError os.IoError) × (open_queue os config ≡ err e))
      ⊎ ((q : ModqQueue) × (open_queue os config ≡ ok q)
          × Lazily (consumer_stride config.slot_size) config.ring_depth 0 q)
unfolding with_params
opened-Lazily os m config name transport pow small =
    elim (open_queue_lem os m config name transport pow small) [
      | inl (e, closed, failed) ↦ inl (e, failed)
      | inr (q, mapped, opens, v, empty, fresh) ↦
          let none_yet : 0 ≡ 0 - config.ring_depth = omega arith in
          inr (
            q,
            opens,
            record {
              service =
                  subst (λ h. Served q.tx h q.bar) none_yet (opened-InService os m config v fresh);
              counted = ap (λ tx. tx.tail) fresh;
              same_stride =
                  ap (λ tx. tx.slot_stride) fresh
                  ∙ stride_of-open_stride config.slot_size small
                  ∙ sym (consumer_stride-open_stride config.slot_size small);
              same_depth = ap (λ tx. tx.depth) fresh;
            },
          )
    ]
