-- ===== src/Chain/Stages.antt =====
-- The hooks of `PluginChain`, each over the plugins of its stage. `S` is what a hook acts on, and
-- `session_of` the session in it; a query stage is handed no context where the Go code tests for nil.
use housegate.Base.{ℕ, Bool, false, Option, none, some, List}
use housegate.Session.{SessionState}
use housegate.Chain.Filter.{
  Markers, Plugin, hello_skips, query_skips, until_error, first_error, run_every, some_rejects,
  least_limit,
}

-- The stages that no filter applies to.
abbrev pub never {ℓ} : {S : Type ℓ} → S → Markers → Bool
never s m = false

unfoldable pub on_connect {ℓ κ} :
    {S : Type ℓ} {Err : Type κ} → List (Plugin (S → Option Err × S)) → S → Option Err × S
on_connect plugins s = until_error never plugins s

unfoldable pub on_disconnect {ℓ} : {S : Type ℓ} → List (Plugin (S → S)) → S → S
on_disconnect plugins s = run_every never plugins s

unfoldable pub on_close {ℓ} : {S : Type ℓ} → List (Plugin (S → S)) → S → S
on_close plugins s = run_every never plugins s

module _ {H T N S : Type 0} (session_of : S → SessionState H T N) where
  abbrev pub hello_filter : S → Markers → Bool
  hello_filter s m = hello_skips (session_of s) m

  abbrev pub query_filter : S → Markers → Bool
  query_filter s m = query_skips (session_of s) m

module _ {H T N S Err : Type 0} (session_of : S → SessionState H T N) where
  unfoldable pub on_hello : List (Plugin (S → Option Err × S)) → S → Option Err × S
  on_hello plugins s = until_error (hello_filter session_of) plugins s

  unfoldable pub on_exception : List (Plugin (S → Option Err × S)) → S → Option Err × S
  on_exception plugins s = first_error (query_filter session_of) none plugins s

  -- `OnClientDataStrict`, `OnClientData` and `OnQueryInputCompleteStrict`
  unfoldable pub on_client_data :
      List (Plugin (S → Option Err × S)) → Option S → Option Err × Option S
  on_client_data plugins none = (none, none)
  on_client_data plugins (some s) =
      let (e, s') = until_error (query_filter session_of) plugins s in (e, some s')

module _ {H T N S : Type 0} (session_of : S → SessionState H T N) where
  -- `OnHandshakeComplete`, `OnQueryComplete` and `OnQuerySuccess`
  unfoldable pub on_session_event : List (Plugin (S → S)) → S → S
  on_session_event plugins s = run_every (query_filter session_of) plugins s

  -- `OnQueryInputComplete` and `OnQueryAbort`
  unfoldable pub on_context_event : List (Plugin (S → S)) → Option S → Option S
  on_context_event plugins none = none
  on_context_event plugins (some s) = some (run_every (query_filter session_of) plugins s)

  unfoldable pub reject_undecodable_query : List (Plugin (Option Bool)) → Option S → Bool
  reject_undecodable_query plugins none = false
  reject_undecodable_query plugins (some s) = some_rejects (query_filter session_of) plugins s

  unfoldable pub client_data_read_limit :
      List (Plugin (Option (S → Option ℕ))) → Option S → Option ℕ
  client_data_read_limit plugins none = none
  client_data_read_limit plugins (some s) = least_limit (query_filter session_of) none plugins s
