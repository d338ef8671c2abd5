-- ===== src/Modq/Consumer/Runs.antt =====
-- Runs of a queue and a consumer of crates/otap-modq/src/bin/modq_loopback.rs side by side.
use otap_signup_validator.Common.{
  ℕ, zero, suc, ◌+◌, ◌-◌, ◌%◌, ◌^◌, ◌≤◌, ◌≡◌, refl, ◌∙◌, arith, ap, ap₂, sym, subst, List, [],
  length, ◌∷◌, ◌++◌, append-nil,
}
use otap_signup_validator.Modq.Queue.Submission.{sids, length-sids}
use otap_signup_validator.Modq.Queue.Steps.{
  Event, submitted, completed, silent, Fifo-balance, submissions, completions_of,
}
use otap_signup_validator.Modq.Consumer.Serving.{
  Shared, in_flight, InService, ServeStep, ServeStep-Serves,
}

-- Any number of steps, with what they submit and consume in order.
pub data ServeRun (stride depth : ℕ) : Shared → List Event → Shared → Type 0 where
  stop : {s : Shared} → ServeRun stride depth s [] s
  step :
      {s s₁ s₂ : Shared} {e : Event} {es : List Event}
      → ServeStep stride depth s e s₁
      → ServeRun stride depth s₁ es s₂
      → ServeRun stride depth s (e ∷ es) s₂

sids_join : (k n m : ℕ) → sids k n ++ sids (k + n) m ≡ sids k (n + m)
sids_join k zero m = ap (λ j. sids j m) (omega arith) ∙ ap (sids k) (omega arith)
sids_join k (suc n) m =
    let rest = sids_join (k + 1) n m in
    let next : k + suc n ≡ k + 1 + n = omega arith in
    let count : suc n + m ≡ suc (n + m) = omega arith in
    rw (next, count) (ap (λ xs. k % 2 ^ 32 ∷ xs) rest)

submissions_join :
    (e : Event) (es : List Event) → submissions (e ∷ []) ++ submissions es ≡ submissions (e ∷ es)
submissions_join (submitted sid) es = refl
submissions_join (completed sid) es = refl
submissions_join silent es = refl

pub record Balanced (s : Shared) (es : List Event) (s' : Shared) : Type 0 where
  pub service : InService s'
  pub balance : in_flight s ++ submissions es ≡ completions_of es ++ in_flight s'
  pub numbers : submissions es ≡ sids s.queue.tx.tail (s'.queue.tx.tail - s.queue.tx.tail)
  pub grows : s.queue.tx.tail ≤ s'.queue.tx.tail
  pub room : length (in_flight s') ≤ s.queue.tx.depth

pub ServeRun-Balanced :
    {stride depth : ℕ} {s s' : Shared} {es : List Event}
    → s.queue.tx.slot_stride ≡ stride
    → s.queue.tx.depth ≡ depth
    → InService s
    → ServeRun stride depth s es s'
    → Balanced s es s'
ServeRun-Balanced {s} same_stride same_depth v stop =
    let none_new : s.queue.tx.tail - s.queue.tx.tail ≡ 0 = omega arith in
    let size = length-sids s.local_head (s.queue.tx.tail - s.local_head) in
    let bounded = v.slots.bounded in
    record {
      service = v;
      balance = append-nil (in_flight s);
      numbers = sym (ap (sids s.queue.tx.tail) none_new);
      grows = omega arith;
      room = omega (arith, size);
    }
ServeRun-Balanced {stride} {depth} {s} same_stride same_depth v (step {s₁} {s₂} {e} {es} one rest) =
    let own : ServeStep s.queue.tx.slot_stride s.queue.tx.depth s e s₁ =
      subst (λ n. ServeStep n s.queue.tx.depth s e s₁) (sym same_stride)
        (subst (λ n. ServeStep stride n s e s₁) (sym same_depth) one) in
    let f = ServeStep-Serves v own in
    let b =
      ServeRun-Balanced (f.same_stride ∙ same_stride) (f.same_depth ∙ same_depth) f.service rest in
    let grows₁ = f.grows in
    let grows₂ = b.grows in
    let reached : s₁.queue.tx.tail ≡ s.queue.tx.tail + (s₁.queue.tx.tail - s.queue.tx.tail) =
      omega arith in
    let count : s₁.queue.tx.tail - s.queue.tx.tail + (s₂.queue.tx.tail - s₁.queue.tx.tail)
        ≡ s₂.queue.tx.tail - s.queue.tx.tail =
      omega arith in
    record {
      service = b.service;
      balance = Fifo-balance es (in_flight s₂) f.fifo b.balance;
      numbers =
          sym (submissions_join e es)
          ∙ ap₂ (λ xs ys. xs ++ ys) (sym f.counted)
              (b.numbers ∙ ap (λ k. sids k (s₂.queue.tx.tail - s₁.queue.tx.tail)) reached)
          ∙ sids_join s.queue.tx.tail (s₁.queue.tx.tail - s.queue.tx.tail)
              (s₂.queue.tx.tail - s₁.queue.tx.tail)
          ∙ ap (sids s.queue.tx.tail) count;
      grows = omega arith;
      room = let fewer = b.room in let same = f.same_depth in omega arith;
    }
