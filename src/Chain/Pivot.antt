-- ===== src/Chain/Pivot.antt =====
-- A plugin that routes or forwards the session takes effect on the plugins behind it, in the same
-- pass: those that opt out do not run.
use housegate.Base.{
  ℕ, suc, ◌≡◌, refl, sym, ◌∙◌, Bool, true, false, Option, none, List, [], ◌∷◌, ◌++◌, arith, All,
  All-mono, Bool-cases, Option-cases, ◌⊎◌, inl, inr,
}
use housegate.Session.{SessionState, is_routed}
use housegate.Chain.Filter.{
  Markers, Plugin, runs_on_routed, runs_on_forward, hello_skips, query_skips, until_error,
}
use housegate.Chain.Stages.{on_hello}
use housegate.Chain.Query.{QueryContext, QueryPlugin, run_query_from, on_query}
use housegate.Chain.Query.Steps.{
  step_done, step_skip, step_error, step_stop, step_on, way, skipped, failed, stopped, went_on,
}

-- The plugin wants no part in a session that is routed or forwarded, as this one is.
abbrev pub OptsOut : {H T N : Type 0} → SessionState H T N → Markers → Type 0
OptsOut s m =
    ((is_routed s ≡ true) × (runs_on_routed m ≡ false))
    ⊎ ((s.is_forwarding ≡ true) × (runs_on_forward m ≡ false))

module _ {H T N : Type 0} (s : SessionState H T N) (m : Markers) where
  OptsOut-hello : OptsOut s m → hello_skips s m ≡ true
  unfolding hello_skips
  OptsOut-hello h = ground arith

  OptsOut-query : OptsOut s m → query_skips s m ≡ true
  unfolding query_skips
  OptsOut-query h = ground arith

module _ {ℓ κ} {S : Type ℓ} {Err : Type κ} (skips : S → Markers → Bool) where
  until_error-skips :
      (ys : List (Plugin (S → Option Err × S))) (s : S)
      → All (λ y. skips s y.markers ≡ true) ys
      → until_error skips ys s ≡ (none, s)
  unfolding until_error
  until_error-skips [] s h = refl
  until_error-skips (y ∷ ys) s h = simp h.0 (until_error-skips ys s h.1)

  until_error-pivot :
      (xs ys : List (Plugin (S → Option Err × S))) (s : S)
      → All (λ y. skips (until_error skips xs s).1 y.markers ≡ true) ys
      → until_error skips (xs ++ ys) s ≡ until_error skips xs s
  unfolding until_error
  until_error-pivot [] ys s h = until_error-skips ys s h
  until_error-pivot (x ∷ xs) ys s h = elim (Bool-cases (skips s x.markers)) [
    | inl e ↦ simp e (until_error-pivot xs ys s (simp e at h))
    | inr e ↦ elim (Option-cases (x.hook s).0) [
      | inl k ↦ simp (e, k) (until_error-pivot xs ys (x.hook s).1 (simp (e, k) at h))
      | inr (_, k) ↦ simp (e, k)
    ]
  ]

module _ {H T N S Err : Type 0} (session_of : S → SessionState H T N) where
  -- Where the hello plugins `xs` leave a session that every plugin of `ys` opts out of, the chain
  -- `xs ++ ys` does what `xs` does: same error, same state.
  pub on_hello-pivot :
      (xs ys : List (Plugin (S → Option Err × S))) (s : S)
      → All (λ y. OptsOut (session_of (on_hello session_of xs s).1) y.markers) ys
      → on_hello session_of (xs ++ ys) s ≡ on_hello session_of xs s
  unfolding on_hello
  on_hello-pivot xs ys s h =
      until_error-pivot (λ s m. hello_skips (session_of s) m) xs ys s
        (All-mono (λ y. OptsOut-hello _ y.markers) ys h)

module _ {H T N R Err : Type 0} (chain : ℕ) where
  run_query_from-skips :
      (b : Bool) (i : ℕ) (ys : List (QueryPlugin Err (QueryContext H T N R)))
      (q : QueryContext H T N R)
      → All (λ y. OptsOut q.session y.markers) ys
      → run_query_from chain b i ys q ≡ (none, q)
  run_query_from-skips b i [] q h = step_done chain b i q
  run_query_from-skips b i (y ∷ ys) q h =
      step_skip chain b i y ys q (OptsOut-query q.session y.markers h.0)
      ∙ run_query_from-skips b (suc i) ys q h.1

  run_query_from-pivot :
      (b : Bool) (i : ℕ) (xs ys : List (QueryPlugin Err (QueryContext H T N R)))
      (q : QueryContext H T N R)
      → All (λ y. OptsOut (run_query_from chain b i xs q).1.session y.markers) ys
      → run_query_from chain b i (xs ++ ys) q ≡ run_query_from chain b i xs q
  run_query_from-pivot b i [] ys q h =
      run_query_from-skips b i ys q (rw (step_done {Err = Err} chain b i q) at h)
      ∙ sym (step_done chain b i q)
  run_query_from-pivot b i (x ∷ xs) ys q h = elim (way chain b i x xs q) [
    | skipped e ↦
        let s = step_skip chain b i x xs q e in
        step_skip chain b i x (xs ++ ys) q e
        ∙ run_query_from-pivot b (suc i) xs ys q (rw s at h)
        ∙ sym s
    | failed z e f ↦ step_error chain b i x (xs ++ ys) q e f ∙ sym (step_error chain b i x xs q e f)
    | stopped o e f a ↦
        step_stop chain b i x (xs ++ ys) q e f a ∙ sym (step_stop chain b i x xs q e f a)
    | went_on e f a ↦
        let s = step_on chain b i x xs q e f a in
        step_on chain b i x (xs ++ ys) q e f a
        ∙ run_query_from-pivot b (suc i) xs ys (x.hook q).1 (rw s at h)
        ∙ sym s
  ]

  -- Where the query plugins `xs` leave a session that every plugin of `ys` opts out of, the chain
  -- `xs ++ ys` does what `xs` does: same outcome, same context, same continuation if there is one.
  pub on_query-pivot :
      (xs ys : List (QueryPlugin Err (QueryContext H T N R))) (q : QueryContext H T N R)
      → All (λ y. OptsOut (on_query chain xs q).1.session y.markers) ys
      → on_query chain (xs ++ ys) q ≡ on_query chain xs q
  unfolding on_query
  on_query-pivot xs ys q = run_query_from-pivot true 0 xs ys q
