-- ===== src/Intake/Outcomes.antt =====
-- The outcomes of the remote calls (pkg/storageintegrity/intake.go), what a status query means
-- (intake_retry.go) and the gate before a client hears success (ack2_gate.go).
use housegate.Base.{ℕ, Bool, true, false, not, Option, none, some, String, str_eq, if◌then◌else◌}

pub data OutcomeCategory : Type 0 where
  unspecified accepted exact_idempotent retryable unknown terminal_reject : OutcomeCategory

-- `PermitsAck2`
abbrev pub permits_ack2 : OutcomeCategory → Bool
permits_ack2 accepted = true
permits_ack2 exact_idempotent = true
permits_ack2 unspecified = false
permits_ack2 retryable = false
permits_ack2 unknown = false
permits_ack2 terminal_reject = false

-- `RequiresAbort`
abbrev pub requires_abort : OutcomeCategory → Bool
requires_abort terminal_reject = true
requires_abort unspecified = false
requires_abort accepted = false
requires_abort exact_idempotent = false
requires_abort retryable = false
requires_abort unknown = false

-- `c == OutcomeUnknown`
abbrev pub is_unknown : OutcomeCategory → Bool
is_unknown unknown = true
is_unknown unspecified = false
is_unknown accepted = false
is_unknown exact_idempotent = false
is_unknown retryable = false
is_unknown terminal_reject = false

pub record SubmitOutcome : Type 0 where
  pub category : OutcomeCategory
  pub reason : String
  pub admission_code : String
  pub statement_seq : ℕ

pub record ClaimOutcome : Type 0 where
  pub category : OutcomeCategory
  pub bound_source : String
  pub reason : String

-- Go's zero values.
abbrev pub no_submit : SubmitOutcome
no_submit = record { category = unspecified; reason = ""; admission_code = ""; statement_seq = 0 }

abbrev pub no_claim : ClaimOutcome
no_claim = record { category = unspecified; bound_source = ""; reason = "" }

-- `Lifecycle`; `blank` is the empty string of a zero value.
pub data Lifecycle : Type 0 where
  blank preparing unsafe_written submit_accepted rc_bound ack2 abort_pending cleaned : Lifecycle

-- `rankLifecycle`
abbrev pub rank_lifecycle : Lifecycle → ℕ
rank_lifecycle preparing = 1
rank_lifecycle unsafe_written = 2
rank_lifecycle submit_accepted = 3
rank_lifecycle rc_bound = 4
rank_lifecycle ack2 = 5
rank_lifecycle blank = 0
rank_lifecycle abort_pending = 0
rank_lifecycle cleaned = 0

-- `l == LifecycleRCBound`
abbrev pub is_rc_bound : Lifecycle → Bool
is_rc_bound rc_bound = true
is_rc_bound blank = false
is_rc_bound preparing = false
is_rc_bound unsafe_written = false
is_rc_bound submit_accepted = false
is_rc_bound ack2 = false
is_rc_bound abort_pending = false
is_rc_bound cleaned = false

-- `queryConvergence` and `classifyQueryConvergence`
pub data QueryConvergence : Type 0 where
  resend forward reject : QueryConvergence

abbrev pub classify_query_convergence : OutcomeCategory → QueryConvergence
classify_query_convergence accepted = forward
classify_query_convergence exact_idempotent = forward
classify_query_convergence terminal_reject = reject
classify_query_convergence unspecified = resend
classify_query_convergence retryable = resend
classify_query_convergence unknown = resend

pub record Ack2Inputs : Type 0 where
  pub payload_durable : Bool
  pub unsafe_write_done : Bool
  pub submit : SubmitOutcome
  pub claim : ClaimOutcome
  pub journal_lifecycle : Lifecycle
  pub prepared_source : String

-- `Ack2Ready`: the first unmet condition, or `none` where the gate opens.
unfoldable pub ack2_ready : Ack2Inputs → Option String
ack2_ready i =
    if not i.payload_durable
    then some "payload not durable"
    else if not i.unsafe_write_done
    then some "unsafe write not complete"
    else if not (permits_ack2 i.submit.category)
    then some "submit not accepted"
    else if not (permits_ack2 i.claim.category)
    then some "result claim not bound"
    else if str_eq i.prepared_source ""
    then some "prepared result has no source_node"
    else if str_eq i.claim.bound_source ""
    then some "RC has no bound source_node"
    else if not (str_eq i.prepared_source i.claim.bound_source)
    then some "RC source_node mismatch"
    else if not (is_rc_bound i.journal_lifecycle)
    then some "intake journal lifecycle is not RCBound"
    else none
