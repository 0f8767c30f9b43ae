-- ===== src/Chain/Examples.antt =====
-- Small chains, and the theorems about chains at them.
use mathlib.Core.List.{map}
use housegate.Base.{
  ℕ, suc, ◌≡◌, refl, false, true, Option, none, some, List, [], ◌∷◌, ◌++◌, inr, length,
}
use housegate.Session.{SessionState, new_session_state, set_forwarding}
use housegate.Chain.Filter.{Markers, Plugin, hello_skips, query_skips, until_error, first_error}
use housegate.Chain.Stages.{on_hello, on_exception, on_session_event}
use housegate.Chain.Query.{
  AgentPrepare, Continuation, QueryContext, QueryPlugin, already_consumed, after_plugin,
  run_query_from, on_query, resume_query,
}
use housegate.Chain.Query.Suspend.{resume_runs_the_rest}
use housegate.Chain.Query.Ownership.{IsExclusive, on_query-IsExclusive, resume_once}
use housegate.Chain.Pivot.{on_hello-pivot, on_query-pivot}
use housegate.Chain.Exceptions.{forget, on_exception-runs_all, on_exception-first}

abbrev Sess : Type 0
Sess = SessionState ℕ ℕ ℕ

abbrev Query : Type 0
Query = QueryContext ℕ ℕ ℕ (List ℕ)

-- A plugin that implements no marker, and one that opts out of forwarding.
abbrev plain : Markers
plain = record { run_on_routed = none; run_on_peer_trust = none; run_on_forward = none }

abbrev host_only : Markers
host_only = record plain { run_on_forward = some false }

-- Hooks of the stages that hold the session alone; the error is a number.
abbrev pivot : Plugin (Sess → Option ℕ × Sess)
pivot = record { markers = plain; hook = λ s. (none, set_forwarding s true) }

abbrev rewriter : Plugin (Sess → Option ℕ × Sess)
rewriter = record { markers = host_only; hook = λ s. (some 1, s) }

on_hello-pivot_example :
    on_hello (λ s. s) (pivot ∷ rewriter ∷ []) new_session_state
    ≡ on_hello (λ s. s) (pivot ∷ []) new_session_state
unfolding on_hello until_error set_forwarding new_session_state hello_skips
on_hello-pivot_example =
    on_hello-pivot (λ (s : Sess). s) (pivot ∷ []) (rewriter ∷ []) new_session_state
      (inr (refl, refl), tt)

-- Query plugins that write their number to the rest of the context.
abbrev noting : ℕ → QueryPlugin ℕ Query
noting n = record { markers = host_only; hook = λ q. (none, record q { rest = n ∷ q.rest }) }

abbrev plan : AgentPrepare
plan = record {
  prepare = true;
  persist_forward_intent = true;
  authorize_forward = true;
  persist_forward_unknown = true;
  max_control_bytes = 1;
}

abbrev preparing : QueryPlugin ℕ Query
preparing = record { markers = plain; hook = λ q. (none, record q { agent_prepare = some plan }) }

abbrev forwarding : QueryPlugin ℕ Query
forwarding = record {
  markers = plain;
  hook = λ q. (none, record q { session = set_forwarding q.session true });
}

abbrev fresh : Query
fresh = record {
  session = new_session_state;
  agent_prepare = none;
  query_only = false;
  deferred_insert = false;
  suppress_upstream_execution = false;
  abort_with_success = false;
  continuation = none;
  rest = [];
}

abbrev chain : List (QueryPlugin ℕ Query)
chain = noting 1 ∷ preparing ∷ noting 2 ∷ []

abbrev at_two : Continuation
at_two = record { chain = 7; next = 2; used = false }

-- The suspended query has run the first plugin and not the last; resumed, it runs the last.
suspended_then_resumed :
    let q = (on_query 7 chain fresh).1 in
    (q.continuation ≡ some at_two)
    × (q.rest ≡ 1 ∷ [])
    × ((resume_query 7 chain q).1.rest ≡ 2 ∷ 1 ∷ [])
unfolding on_query resume_query run_query_from after_plugin new_session_state query_skips
suspended_then_resumed = (refl, refl, refl)

resume_runs_the_rest_example :
    (before : List (QueryPlugin ℕ Query)) × (p : QueryPlugin ℕ Query) × (left : List
      (QueryPlugin ℕ Query))
    × (reached : Query) × (chain ≡ before ++ p ∷ left)
    × (on_query 7 before fresh ≡ (none, reached))
    × (reached.continuation ≡ none)
    × (query_skips reached.session p.markers ≡ false)
    × ((p.hook reached).0 ≡ none)
    × (on_query 7 chain fresh ≡ (none, record (p.hook reached).1 { continuation = some at_two }))
    × (resume_query 7 chain (record fresh { continuation = some at_two })
        ≡ run_query_from 7 false (suc (length before)) left (record fresh {
          continuation = some (record at_two { used = true });
          agent_prepare = none;
        }))
unfolding on_query run_query_from after_plugin new_session_state query_skips
resume_runs_the_rest_example =
    resume_runs_the_rest 7 chain fresh (record fresh { continuation = some at_two }) at_two
      ((λ q. refl), ((λ q. refl), ((λ q. refl), tt))) refl refl refl

resume_once_example :
    let q = (resume_query 7 chain (record fresh { continuation = some at_two })).1 in
    resume_query 7 chain q ≡ (some already_consumed, q)
resume_once_example =
    resume_once 7 chain (record fresh { continuation = some at_two }) at_two
      ((λ q. refl), ((λ q. refl), ((λ q. refl), tt))) refl refl

on_query-IsExclusive_example : IsExclusive (on_query 7 chain fresh).1
unfolding on_query run_query_from after_plugin new_session_state query_skips
on_query-IsExclusive_example =
    on_query-IsExclusive 7 chain fresh
      (record { prepare_alone = (refl, refl, refl, refl); query_only_alone = (refl, refl, refl) })
      refl

on_query-pivot_example :
    on_query 7 (forwarding ∷ noting 3 ∷ []) fresh ≡ on_query 7 (forwarding ∷ []) fresh
unfolding on_query run_query_from after_plugin new_session_state set_forwarding query_skips
on_query-pivot_example =
    on_query-pivot 7 (forwarding ∷ []) (noting 3 ∷ []) fresh (inr (refl, refl), tt)

on_exception-runs_all_example :
    (on_exception (λ s. s) (rewriter ∷ pivot ∷ []) new_session_state).1
    ≡ on_session_event (λ s. s) (map forget (rewriter ∷ pivot ∷ [])) new_session_state
on_exception-runs_all_example =
    on_exception-runs_all (λ (s : Sess). s) (rewriter ∷ pivot ∷ []) new_session_state

on_exception-first_example :
    (on_exception (λ s. s) (rewriter ∷ pivot ∷ rewriter ∷ []) new_session_state).0 ≡ some 1
unfolding on_exception first_error new_session_state query_skips
on_exception-first_example =
    on_exception-first (λ (s : Sess). s) 1 (rewriter ∷ []) (pivot ∷ rewriter ∷ []) new_session_state
      refl
