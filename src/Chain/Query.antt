-- ===== src/Chain/Query.antt =====
-- `OnQuery`, `runQueryFrom` and `ResumeQuery` of pkg/plugin/chain.go, with the part of `QueryContext`
-- (pkg/plugin/context.go) that they read: who owns the query, and the continuation of a chain that a
-- plugin suspended. One chain serves a connection, so the test that the continuation is this chain's
-- is an identity of chains.
pub mod Steps
pub mod Suspend
pub mod Ownership
use housegate.Base.{
  ℕ, suc, ◌≡◌, Bool, true, false, not, ◌&&◌, ◌||◌, Option, none, some, List, [], ◌∷◌, if◌then◌else◌,
  ◌==◌, drop,
}
use housegate.Session.{SessionState}
use housegate.Chain.Filter.{Markers, Plugin, query_skips}

-- `AgentPreparePlan`: which of its callbacks are set, and its limit.
pub record AgentPrepare : Type 0 where
  pub prepare : Bool
  pub persist_forward_intent : Bool
  pub authorize_forward : Bool
  pub persist_forward_unknown : Bool
  pub max_control_bytes : ℕ

-- `queryContinuation`: the chain, and the first plugin that has not run. `once` and `err` only keep
-- the result of the single run that `used` admits.
pub record Continuation : Type 0 where
  pub chain : ℕ
  pub next : ℕ
  pub used : Bool

-- `Rest` is what the fields of the context that these functions do not read hold, such as
-- `SynthesizedInsert`, whose conflicts the relay looks for after the chain.
pub record QueryContext (Hello Setting Any Rest : Type 0) : Type 0 where
  pub session : SessionState Hello Setting Any
  pub agent_prepare : Option AgentPrepare
  pub query_only : Bool
  pub deferred_insert : Bool
  pub suppress_upstream_execution : Bool
  pub abort_with_success : Bool
  pub continuation : Option Continuation
  pub rest : Rest

pub data ChainError (Err : Type 0) : Type 0 where
  from_plugin : Err → ChainError Err
  no_continuation already_consumed already_installed : ChainError Err
  prepare_during_continuation prepare_conflict prepare_incomplete : ChainError Err
  query_only_conflict : ChainError Err

unfoldable pub is_complete : AgentPrepare → Bool
is_complete p =
    p.prepare
    && p.persist_forward_intent
    && p.authorize_forward
    && p.persist_forward_unknown
    && not (p.max_control_bytes == 0)

abbrev pub Outcome : Type 0 → Type 0 → Type 0
Outcome Err Q = Option (ChainError Err) × Q

abbrev pub QueryPlugin : Type 0 → Type 0 → Type 0
QueryPlugin Err Q = Plugin (Q → Option Err × Q)

module _ {H T N R Err : Type 0} where
  -- `installContinuation`
  unfoldable pub install_continuation :
      ℕ → ℕ → QueryContext H T N R → Outcome Err (QueryContext H T N R)
  install_continuation chain next q = elim q.continuation [
    | some _ ↦ (some already_installed, q)
    | none ↦ (
      none,
      record q { continuation = some (record { chain = chain; next = next; used = false }) },
    )
  ]

  -- What the loop does after plugin `i` returned without an error: stop with an outcome, or `none` to
  -- go on.
  unfoldable pub after_plugin :
      ℕ → ℕ → Bool → QueryContext H T N R → Option (Outcome Err (QueryContext H T N R))
  unfolding install_continuation is_complete
  after_plugin chain i allow_suspend q = elim q.agent_prepare [
    | some plan ↦ some (
        if not allow_suspend
        then (some prepare_during_continuation, q)
        else if q.query_only || q.deferred_insert || q.suppress_upstream_execution
            || q.abort_with_success
        then (some prepare_conflict, q)
        else if not (is_complete plan)
        then (some prepare_incomplete, q)
        else install_continuation chain (suc i) q)
    | none ↦
        if q.query_only
          && (q.deferred_insert || q.suppress_upstream_execution || q.abort_with_success)
        then some (some query_only_conflict, q)
        else none
  ]

  -- `runQueryFrom` over the plugins from index `i` on.
  unfoldable pub run_query_from :
      ℕ
      → Bool
      → ℕ
      → List (QueryPlugin Err (QueryContext H T N R))
      → QueryContext H T N R
      → Outcome Err (QueryContext H T N R)
  run_query_from chain allow_suspend i [] q = (none, q)
  run_query_from chain allow_suspend i (p ∷ ps) q =
      let skipped = run_query_from chain allow_suspend (suc i) ps q in
      let (e, q') = p.hook q in
      let goes_on = run_query_from chain allow_suspend (suc i) ps q' in
      if query_skips q.session p.markers then skipped else elim e [
        | some x ↦ (some (from_plugin x), q')
        | none ↦ elim (after_plugin chain i allow_suspend q') [ some o ↦ o | none ↦ goes_on ]
      ]

  unfoldable pub on_query :
      ℕ
      → List (QueryPlugin Err (QueryContext H T N R))
      → QueryContext H T N R
      → Outcome Err (QueryContext H T N R)
  on_query chain plugins q = run_query_from chain true 0 plugins q

  -- `ResumeQuery` with a context; `qctx == nil` is the case `none`.
  unfoldable pub resume_from :
      ℕ
      → List (QueryPlugin Err (QueryContext H T N R))
      → Option Continuation
      → QueryContext H T N R
      → Outcome Err (QueryContext H T N R)
  resume_from chain plugins none q = (some no_continuation, q)
  resume_from chain plugins (some k) q =
      let used = record q {
        continuation = some (record k { used = true });
        agent_prepare = none;
      } in
      if not (k.chain == chain)
      then (some no_continuation, q)
      else if k.used
      then (some already_consumed, q)
      else run_query_from chain false k.next (drop k.next plugins) used

  unfoldable pub resume_query :
      ℕ
      → List (QueryPlugin Err (QueryContext H T N R))
      → QueryContext H T N R
      → Outcome Err (QueryContext H T N R)
  unfolding resume_from
  resume_query chain plugins q = resume_from chain plugins q.continuation q
