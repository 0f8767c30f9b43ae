-- ===== src/Chain/Filter.antt =====
-- The filters and the hook loops of chain.go. A hook acts on a state that holds the session, so every
-- plugin is filtered by the session that the ones before it left.
use housegate.Base.{
  ℕ, Bool, true, false, not, ◌&&◌, ◌||◌, Option, none, some, List, [], ◌∷◌, if◌then◌else◌, ltb,
}
use housegate.Session.{SessionState, is_routed}

-- What a plugin answers to the three interfaces; `none` is a plugin that does not implement one.
pub record Markers : Type 0 where
  pub run_on_routed : Option Bool
  pub run_on_peer_trust : Option Bool
  pub run_on_forward : Option Bool

unfoldable pub runs_on_routed : Markers → Bool
runs_on_routed m = elim m.run_on_routed [ none ↦ false | some b ↦ b ]

unfoldable pub runs_on_peer_trust : Markers → Bool
runs_on_peer_trust m = elim m.run_on_peer_trust [ none ↦ true | some b ↦ b ]

unfoldable pub runs_on_forward : Markers → Bool
runs_on_forward m = elim m.run_on_forward [ none ↦ true | some b ↦ b ]

-- A plugin of one stage: its markers and its hook.
pub record Plugin {ℓ} (Hook : Type ℓ) : Type ℓ where
  pub markers : Markers
  pub hook : Hook

module _ {Hello Setting Any : Type 0} (s : SessionState Hello Setting Any) (m : Markers) where
  -- the two tests of `OnHello`
  unfoldable pub hello_skips : Bool
  unfolding is_routed runs_on_routed runs_on_forward
  hello_skips =
      (is_routed s && not (runs_on_routed m)) || (s.is_forwarding && not (runs_on_forward m))

  -- the three tests of the query stages
  unfoldable pub query_skips : Bool
  unfolding is_routed runs_on_routed runs_on_peer_trust runs_on_forward
  query_skips =
      (is_routed s && not (runs_on_routed m))
      || (s.is_peer_trusted && not s.is_forwarded_from_peer && not (runs_on_peer_trust m))
      || (s.is_forwarding && not (runs_on_forward m))

-- `candidateEnforced && (!enforce || candidate < limit)`
unfoldable pub tighter : Option ℕ → Option ℕ → Option ℕ
tighter none limit = limit
tighter (some candidate) none = some candidate
tighter (some candidate) (some limit) = if ltb candidate limit then some candidate else some limit

-- `if err != nil && first == nil { first = err }`
abbrev pub kept_error {κ} : {Err : Type κ} → Option Err → Option Err → Option Err
kept_error (some x) e = some x
kept_error none e = e

-- The loops, over what a stage skips. `Err` is the type of a hook's error.
module _ {ℓ κ} {S : Type ℓ} {Err : Type κ} (skips : S → Markers → Bool) where
  -- `OnHello`, `OnClientDataStrict`, `OnClientData`, `OnQueryInputCompleteStrict`: the first error ends
  -- the loop.
  unfoldable pub until_error : List (Plugin (S → Option Err × S)) → S → Option Err × S
  until_error [] s = (none, s)
  until_error (p ∷ ps) s =
      let skipped = until_error ps s in
      let (e, s') = p.hook s in
      let rest = until_error ps s' in
      if skips s p.markers then skipped else elim e [ some x ↦ (some x, s') | none ↦ rest ]

  -- `OnException`: every plugin runs, and the first error is returned.
  unfoldable pub first_error : Option Err → List (Plugin (S → Option Err × S)) → S → Option Err × S
  first_error first [] s = (first, s)
  first_error first (p ∷ ps) s =
      let skipped = first_error first ps s in
      let (e, s') = p.hook s in
      let rest = first_error (kept_error first e) ps s' in
      if skips s p.markers then skipped else rest

module _ {ℓ} {S : Type ℓ} (skips : S → Markers → Bool) where
  -- `OnHandshakeComplete`, `OnQueryInputComplete`, `OnQueryAbort`, `OnQueryComplete`, `OnQuerySuccess`
  unfoldable pub run_every : List (Plugin (S → S)) → S → S
  run_every [] s = s
  run_every (p ∷ ps) s =
      let skipped = run_every ps s in
      let rest = run_every ps (p.hook s) in if skips s p.markers then skipped else rest

  -- `RejectUndecodableQuery`: some plugin that has the policy and is not skipped says so. The policy
  -- is `none` for a plugin that does not implement it.
  unfoldable pub some_rejects : List (Plugin (Option Bool)) → S → Bool
  some_rejects [] s = false
  some_rejects (p ∷ ps) s =
      let rest = some_rejects ps s in
      elim p.hook [
        | none ↦ rest
        | some rejects ↦ if skips s p.markers then rest else if rejects then true else rest
      ]

  -- `ClientDataReadLimit`: the least of the limits that are enforced, from `limit` on. A provider
  -- answers `none` when it enforces no limit.
  unfoldable pub least_limit : Option ℕ → List (Plugin (Option (S → Option ℕ))) → S → Option ℕ
  least_limit limit [] s = limit
  least_limit limit (p ∷ ps) s = elim p.hook [
    | none ↦ least_limit limit ps s
    | some provider ↦
        let skipped = least_limit limit ps s in
        let rest = least_limit (tighter (provider s) limit) ps s in
        if skips s p.markers then skipped else rest
  ]
