-- ===== src/Chain/Query/Steps.antt =====
-- One plugin of the loop of `runQueryFrom`, as equations: what follows uses these and not the loop.
use housegate.Base.{
  ℕ, suc, ◌≡◌, refl, Bool, true, false, none, some, List, [], ◌∷◌, inl, inr, Bool-cases,
  Option-cases,
}
use housegate.Chain.Filter.{query_skips}
use housegate.Chain.Query.{
  QueryContext, from_plugin, Outcome, QueryPlugin, after_plugin, run_query_from,
}

pub step_done :
    {H T N R Err : Type 0} (chain : ℕ) (b : Bool) (i : ℕ) (q : QueryContext H T N R)
    → run_query_from {Err = Err} chain b i [] q ≡ (none, q)
unfolding run_query_from
step_done chain b i q = refl

module _ {H T N R Err : Type 0} (chain : ℕ) (b : Bool) (i : ℕ)
    (p : QueryPlugin Err (QueryContext H T N R))
    (ps : List (QueryPlugin Err (QueryContext H T N R))) (q : QueryContext H T N R) where
  pub step_skip :
      query_skips q.session p.markers ≡ true
      → run_query_from chain b i (p ∷ ps) q ≡ run_query_from chain b (suc i) ps q
  unfolding run_query_from
  step_skip e = simp e

  pub step_error :
      {x : Err}
      → query_skips q.session p.markers ≡ false
      → (p.hook q).0 ≡ some x
      → run_query_from chain b i (p ∷ ps) q ≡ (some (from_plugin x), (p.hook q).1)
  unfolding run_query_from
  step_error e h = simp (e, h)

  pub step_stop :
      {o : Outcome Err (QueryContext H T N R)}
      → query_skips q.session p.markers ≡ false
      → (p.hook q).0 ≡ none
      → after_plugin chain i b (p.hook q).1 ≡ some o
      → run_query_from chain b i (p ∷ ps) q ≡ o
  unfolding run_query_from
  step_stop e h k = simp (e, h, k)

  pub step_on :
      query_skips q.session p.markers ≡ false
      → (p.hook q).0 ≡ none
      → after_plugin {Err = Err} chain i b (p.hook q).1 ≡ none
      → run_query_from chain b i (p ∷ ps) q ≡ run_query_from chain b (suc i) ps (p.hook q).1
  unfolding run_query_from
  step_on e h k = simp (e, h, k)

  -- The four ways of a plugin, to split on.
  pub data Way : Type 0 where
    skipped : query_skips q.session p.markers ≡ true → Way
    failed : (x : Err) → query_skips q.session p.markers ≡ false → (p.hook q).0 ≡ some x → Way
    stopped :
        (o : Outcome Err (QueryContext H T N R))
        → query_skips q.session p.markers ≡ false
        → (p.hook q).0 ≡ none
        → after_plugin chain i b (p.hook q).1 ≡ some o
        → Way
    went_on :
        query_skips q.session p.markers ≡ false
        → (p.hook q).0 ≡ none
        → after_plugin {Err = Err} chain i b (p.hook q).1 ≡ none
        → Way

  pub way : Way
  way = elim (Bool-cases (query_skips q.session p.markers)) [
    | inl e ↦ skipped e
    | inr e ↦ elim (Option-cases (p.hook q).0) [
      | inr (x, h) ↦ failed x e h
      | inl h ↦ elim (Option-cases (after_plugin {Err = Err} chain i b (p.hook q).1)) [
        | inr (o, k) ↦ stopped o e h k
        | inl k ↦ went_on e h k
      ]
    ]
  ]
