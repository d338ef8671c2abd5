-- ===== src/Obg/Queues.antt =====
-- crates/otap-obg/src/lib.rs: errors, `WorkRequest`, `SendQueue` and `CompletionQueue`.
use Prim.Native.String.{String}
use otap_signup_validator.Common.{
  ℕ, List, [], ◌∷◌, ◌++◌, length, Option, none, some, Bool, not, Result, ok, err, ◌>>=◌, leb, ◌==◌,
  if◌then◌else◌,
}
use otap_signup_validator.Common.Int.{pos}
use otap_signup_validator.Core.Error.{ProtocolError, schema_mismatch}
use otap_signup_validator.Core.Dimensions.{Wavelength}
use otap_signup_validator.Csr.Registers.{CsrError}
use otap_signup_validator.Schema.Registry.{SchemaId, payload_bytes, AnySchemaValue}

-- `ObgError`
pub data ObgError : Type 0 where
  send_queue_full : ObgError
  completion_queue_empty : ObgError
  payload_size : ℕ → ℕ → ObgError
  protocol : ProtocolError → ObgError
  csr : CsrError → ObgError
  not_armed : String → ObgError

-- `ObgResult<T>`
abbrev pub ObgResult : Type 0 → Type 0
ObgResult A = Result A ObgError

-- `WorkRequest`
pub record WorkRequest : Type 0 where
  pub version : ℕ
  pub schema_id : SchemaId
  pub wavelength : Wavelength
  pub payload_len : ℕ
  pub cookie : ℕ
  pub flags : ℕ

-- `WorkRequest::new`
unfoldable pub new_request : SchemaId → Wavelength → ℕ → ℕ → WorkRequest
new_request schema_id wavelength payload_len cookie = record {
  version = 1;
  schema_id = schema_id;
  wavelength = wavelength;
  payload_len = payload_len;
  cookie = cookie;
  flags = 0;
}

-- `WorkRequest::validate`
unfoldable pub validate : WorkRequest → ObgResult (Unit {0})
validate wr =
    let expected = payload_bytes wr.schema_id in
    if not (expected == wr.payload_len)
    then err (protocol (schema_mismatch (pos 0) expected wr.payload_len))
    else ok tt

-- `SendQueue`
pub record SendQueue : Type 0 where
  pub requests : List (WorkRequest × List ℕ)
  pub capacity : ℕ

-- `SendQueue::new`
unfoldable pub new_send_queue : ℕ → SendQueue
new_send_queue capacity = record { requests = []; capacity = capacity }

-- `SendQueue::post`
unfoldable pub post : SendQueue → WorkRequest → List ℕ → ObgResult SendQueue
unfolding validate
post q wr payload = do
  _ ← validate wr
  if leb q.capacity (length q.requests)
      then err send_queue_full
      else ok (record q { requests = q.requests ++ ((wr, payload) ∷ []) })

-- `SendQueue::pop`
unfoldable pub pop : SendQueue → Option (WorkRequest × List ℕ) × SendQueue
pop q = elim q.requests [ [] ↦ (none, q) | r ∷ rest ↦ (some r, record q { requests = rest }) ]

-- `SendQueue::len` and `SendQueue::is_empty`
abbrev pub queued_count : SendQueue → ℕ
queued_count q = length q.requests

abbrev pub none_queued : SendQueue → Bool
none_queued q = queued_count q == 0

-- `Completion`
pub record Completion : Type 0 where
  pub value : AnySchemaValue
  pub auth_ok : Bool
  pub sequence : ℕ
  pub cookie : ℕ

-- `CompletionQueue`
pub record CompletionQueue : Type 0 where
  pub completions : List Completion
  pub capacity : ℕ

-- `CompletionQueue::new`
unfoldable pub new_completion_queue : ℕ → CompletionQueue
new_completion_queue capacity = record { completions = []; capacity = capacity }

-- `CompletionQueue::len` and `CompletionQueue::is_empty`
abbrev pub completed_count : CompletionQueue → ℕ
completed_count q = length q.completions

abbrev pub none_completed : CompletionQueue → Bool
none_completed q = completed_count q == 0

-- `VecDeque::pop_front` without its result.
abbrev pub drop_front : List Completion → List Completion
drop_front [] = []
drop_front (c ∷ cs) = cs

-- `CompletionQueue::poll`
unfoldable pub poll : CompletionQueue → Option Completion × CompletionQueue
poll q = elim q.completions [
  | [] ↦ (none, q)
  | c ∷ rest ↦ (some c, record q { completions = rest })
]

-- `CompletionQueue::push`: a full queue loses its oldest completion.
unfoldable pub push : CompletionQueue → Completion → CompletionQueue
push q c =
    let room =
      if leb q.capacity (length q.completions) then drop_front q.completions else q.completions in
    record q { completions = room ++ (c ∷ []) }
