-- ===== src/Obg/Endpoint/Numbering.antt =====
-- The numbers that `OtapEndpoint::submit` of crates/otap-obg/src/modq_backend.rs gives out, over both
-- transports.
use otap_signup_validator.Common.{
  ℕ, ◌+◌, ◌%◌, ◌^◌, ◌≤◌, ◌<◌, ◌≡◌, List, [], ◌∷◌, length, All, Result, ok, ◌>>=◌,
}
use otap_signup_validator.Schema.Registry.{SchemaId}
use otap_signup_validator.Modq.Bar.{BarMapping}
use otap_signup_validator.Modq.Queue.{Os, ModqQueue, queue_capacity}
use otap_signup_validator.Modq.Queue.Submission.{Valid}
use otap_signup_validator.Obg.Endpoint.{
  EndpointError, OtapEndpoint, software, hardware, endpoint_submit,
}

-- Submitting one payload after another, up to the first refusal, with the numbers given out.
abbrev pub submit_run :
    (os : Os)
    → (BarMapping → BarMapping)
    → OtapEndpoint
    → List (SchemaId × List ℕ)
    → Result (List ℕ × OtapEndpoint) (EndpointError os.IoError)
submit_run os device endpoint [] = ok ([], endpoint)
submit_run os device endpoint (x ∷ xs) = do
  (sid, next) ← endpoint_submit os device endpoint x.0 x.1
  (rest, last) ← submit_run os device next xs
  ok (sid ∷ rest, last)

-- A queue in order with room for the payloads, after `k` submissions.
pub record HasRoom (q : ModqQueue) (k : ℕ) (xs : List (SchemaId × List ℕ)) : Type 0 where
  pub valid : Valid q
  pub count : q.tx.tail ≡ k
  pub fits : All (λ x. length x.1 ≤ queue_capacity q) xs
  pub room : q.tx.tail + length xs ≤ q.completions.head + q.tx.depth
  pub bound : q.tx.tail + length xs < 2 ^ 64

-- An endpoint that has accepted `k` payloads and has room for more.
abbrev pub Ready : OtapEndpoint → ℕ → List (SchemaId × List ℕ) → Type 0
Ready (software next_sid) k xs = next_sid ≡ k % 2 ^ 32
Ready (hardware q) k xs = HasRoom q k xs
