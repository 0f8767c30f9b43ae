-- ===== src/Chain/Query/Ownership.antt =====
-- Who owns a query when its chain ends without an error, and that a continuation runs once.
use housegate.Base.{
  ℕ, suc, ◌≡◌, refl, ap, ◌∙◌, Bool, true, false, ◌&&◌, Option, none, some, List, [], ◌∷◌, arith,
  ◌==◌, All, All-drop, Bool-cases, inl, inr,
}
use housegate.Chain.Query.{
  Continuation, QueryContext, already_consumed, Outcome, QueryPlugin, after_plugin, run_query_from,
  on_query, resume_from, resume_query,
}
use housegate.Chain.Query.Steps.{
  step_done, step_skip, step_error, step_stop, step_on, way, skipped, failed, stopped, went_on,
}
use housegate.Chain.Query.Suspend.{KeepsContinuation, resume_query-run}

-- Whether a plan is installed.
abbrev pub is_set {ℓ} : {A : Type ℓ} → Option A → Bool
is_set none = false
is_set (some _) = true

module _ {H T N R : Type 0} where
  -- Of the five plans that the chain looks at, a prepare stands beside no other, and a query-only plan
  -- beside no deferred INSERT, no suppressed execution and no abort with success.
  pub record IsExclusive (q : QueryContext H T N R) : Type 0 where
    pub prepare_alone :
        (is_set q.agent_prepare && q.query_only ≡ false)
        × (is_set q.agent_prepare && q.deferred_insert ≡ false)
        × (is_set q.agent_prepare && q.suppress_upstream_execution ≡ false)
        × (is_set q.agent_prepare && q.abort_with_success ≡ false)
    pub query_only_alone :
        (q.query_only && q.deferred_insert ≡ false)
        × (q.query_only && q.suppress_upstream_execution ≡ false)
        × (q.query_only && q.abort_with_success ≡ false)

module _ {H T N R Err : Type 0} (chain : ℕ) where
  after_plugin-IsExclusive :
      (i : ℕ) (b : Bool) (q : QueryContext H T N R)
      → after_plugin {Err = Err} chain i b q ≡ none
      → IsExclusive q
  unfolding after_plugin
  after_plugin-IsExclusive i b q h = record {
    prepare_alone = ground arith;
    query_only_alone = ground arith;
  }

  after_plugin-stops-IsExclusive :
      (i : ℕ) (b : Bool) (q : QueryContext H T N R) (o : Outcome Err (QueryContext H T N R))
      → after_plugin chain i b q ≡ some o
      → o.0 ≡ none
      → IsExclusive o.1
  unfolding after_plugin
  after_plugin-stops-IsExclusive i b q o h e = record {
    prepare_alone = ground arith;
    query_only_alone = ground arith;
  }

  after_plugin-resuming :
      (i : ℕ) (q : QueryContext H T N R) (o : Outcome Err (QueryContext H T N R))
      → after_plugin chain i false q ≡ some o
      → o.1 ≡ q
  unfolding after_plugin
  after_plugin-resuming i q o h = ground arith

  run-IsExclusive :
      (b : Bool) (i : ℕ) (ps : List (QueryPlugin Err (QueryContext H T N R)))
      (q : QueryContext H T N R)
      → IsExclusive q
      → (run_query_from chain b i ps q).0 ≡ none
      → IsExclusive (run_query_from chain b i ps q).1
  run-IsExclusive b i [] q x h = rw (step_done {Err = Err} chain b i q) x
  run-IsExclusive b i (p ∷ ps) q x h = elim (way chain b i p ps q) [
    | skipped e ↦
        let s = step_skip chain b i p ps q e in rw s (run-IsExclusive b (suc i) ps q x (rw s at h))
    | failed x' e f ↦ cc (rw (step_error chain b i p ps q e f) at h)
    | stopped o e f a ↦
        let s = step_stop chain b i p ps q e f a in
        rw s (after_plugin-stops-IsExclusive i b (p.hook q).1 o a (rw s at h))
    | went_on e f a ↦
        let s = step_on chain b i p ps q e f a in
        rw s (
          run-IsExclusive b (suc i) ps (p.hook q).1 (after_plugin-IsExclusive i b (p.hook q).1 a)
            (rw s at h))
  ]

  -- A query chain that ends without an error, suspended or not, on a context that came exclusive, leaves
  -- it exclusive: a prepare stands beside no query-only plan, deferred INSERT, suppressed execution or
  -- abort with success, and a query-only plan beside none of the last three.
  pub on_query-IsExclusive :
      (ps : List (QueryPlugin Err (QueryContext H T N R))) (q : QueryContext H T N R)
      → IsExclusive q
      → (on_query chain ps q).0 ≡ none
      → IsExclusive (on_query chain ps q).1
  unfolding on_query
  on_query-IsExclusive ps q = run-IsExclusive true 0 ps q

  run-KeepsContinuation :
      (i : ℕ) (ps : List (QueryPlugin Err (QueryContext H T N R))) (q : QueryContext H T N R)
      → All KeepsContinuation ps
      → (run_query_from chain false i ps q).1.continuation ≡ q.continuation
  run-KeepsContinuation i [] q keeps = rw (step_done {Err = Err} chain false i q)
  run-KeepsContinuation i (p ∷ ps) q keeps = elim (way chain false i p ps q) [
    | skipped e ↦ rw (step_skip chain false i p ps q e) (run-KeepsContinuation (suc i) ps q keeps.1)
    | failed x e f ↦ rw (step_error chain false i p ps q e f) (keeps.0 q)
    | stopped o e f a ↦ rw (step_stop chain false i p ps q e f a) (
        ap (λ (c : QueryContext H T N R). c.continuation) (after_plugin-resuming i (p.hook q).1 o a)
        ∙ keeps.0 q)
    | went_on e f a ↦
        rw (step_on chain false i p ps q e f a)
          (run-KeepsContinuation (suc i) ps (p.hook q).1 keeps.1 ∙ keeps.0 q)
  ]

  consumed :
      (ps : List (QueryPlugin Err (QueryContext H T N R))) (q : QueryContext H T N R)
      (k : Continuation)
      → k.chain ≡ chain
      → k.used ≡ true
      → q.continuation ≡ some k
      → resume_query chain ps q ≡ (some already_consumed, q)
  unfolding resume_query
  consumed ps q k ours used e =
      let same : (k.chain == chain) ≡ true = ground arith in
      ap (λ c. resume_from chain ps c q) e ∙ simp (same, used)

  -- A continuation of this chain is consumed by its first resumption: after it, whatever its outcome,
  -- another one runs no plugin, reports that it was consumed, and changes nothing.
  pub resume_once :
      (ps : List (QueryPlugin Err (QueryContext H T N R))) (q : QueryContext H T N R)
      (k : Continuation)
      → All KeepsContinuation ps
      → k.chain ≡ chain
      → q.continuation ≡ some k
      → let q' = (resume_query chain ps q).1 in
        resume_query chain ps q' ≡ (some already_consumed, q')
  resume_once ps q k keeps ours e = elim (Bool-cases k.used) [
    | inl used ↦ rw (consumed ps q k ours used e) (consumed ps q k ours used e)
    | inr unused ↦
        consumed ps (resume_query chain ps q).1 (record k { used = true }) ours refl
          (ap (λ (o : Outcome Err (QueryContext H T N R)). o.1.continuation)
              (resume_query-run chain ps q k ours unused e)
            ∙ run-KeepsContinuation _ _ _ (All-drop KeepsContinuation k.next ps keeps))
  ]
