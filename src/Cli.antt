-- ===== src/Cli.antt =====
-- crates/otap-cli: the demonstration programs, without what they print between the values.
pub mod Link
pub mod Local
pub mod Fullstack
pub mod Demo
pub mod ModqDemo
use otap_signup_validator.Common.{
  ℕ, zero, suc, List, [], ◌∷◌, none, some, length, Bool, true, false, ◌&&◌, ◌==◌,
}
use otap_signup_validator.Core.Error.{ProtocolError}
use otap_signup_validator.Csr.Registers.{CsrError}
use otap_signup_validator.Obg.Queues.{ObgError, Completion, CompletionQueue, poll}

-- The errors that `main` passes on.
pub data CliError (E : Type 0) : Type 0 where
  core : ProtocolError → CliError E
  obg : ObgError → CliError E
  registry : E → CliError E
  no_active_schemas : CliError E
  not_an_order : CliError E

-- The loop `while let Some(c) = cq.poll()`, in at most so many rounds: the completions, in order.
unfoldable pub poll_all : ℕ → CompletionQueue → List Completion
unfolding poll
poll_all zero cq = []
poll_all (suc rounds) cq =
    let (polled, cq') = poll cq in
    let rest = poll_all rounds cq' in elim polled [ none ↦ [] | some c ↦ c ∷ rest ]

-- A round more than there are completions ends the loop.
unfoldable pub drain_completions : CompletionQueue → List Completion
unfolding poll_all
drain_completions cq = poll_all (suc (length cq.completions)) cq
