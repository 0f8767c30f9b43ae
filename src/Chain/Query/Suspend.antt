-- ===== src/Chain/Query/Suspend.antt =====
-- What a suspended query promises: the plugins before the continuation ran in `OnQuery`, those after
-- it run in `ResumeQuery`, and no continuation is consumed twice.
use housegate.Base.{
  ℕ, suc, ◌+◌, ◌≡◌, refl, ap, ◌∙◌, true, false, none, some, List, [], ◌∷◌, ◌++◌, arith, ◌==◌, drop,
  length, All,
}
use housegate.Chain.Filter.{query_skips}
use housegate.Chain.Query.Steps.{
  step_done, step_skip, step_error, step_stop, step_on, way, skipped, failed, stopped, went_on,
}
use housegate.Chain.Query.{
  Continuation, QueryContext, Outcome, QueryPlugin, after_plugin, run_query_from, on_query,
  resume_from, resume_query,
}

module _ {H T N R Err : Type 0} where
  -- The continuation is private to the chain's package: no hook writes it.
  abbrev pub KeepsContinuation : QueryPlugin Err (QueryContext H T N R) → Type 0
  KeepsContinuation p = (q : QueryContext H T N R) → (p.hook q).1.continuation ≡ q.continuation

module _ {H T N R Err : Type 0} (chain : ℕ) where
  -- What a run says when it stops at a continuation: the plugins before the one that suspended ran to
  -- their end, that one ran and succeeded, and the outcome is what it left, with the continuation.
  record Suspended (i : ℕ) (ps : List (QueryPlugin Err (QueryContext H T N R)))
      (q : QueryContext H T N R) (k : Continuation) : Type 0 where
    before : List (QueryPlugin Err (QueryContext H T N R))
    suspender : QueryPlugin Err (QueryContext H T N R)
    left : List (QueryPlugin Err (QueryContext H T N R))
    reached : QueryContext H T N R
    parts : ps ≡ before ++ suspender ∷ left
    ran_before : run_query_from chain true i before q ≡ (none, reached)
    not_yet : reached.continuation ≡ none
    takes_part : query_skips reached.session suspender.markers ≡ false
    succeeds : (suspender.hook reached).0 ≡ none
    outcome :
        run_query_from chain true i ps q
        ≡ (none, record (suspender.hook reached).1 { continuation = some k })
    next_is : k.next ≡ suc (i + length before)
    ours : k.chain ≡ chain
    unused : k.used ≡ false

  after_plugin-suspends :
      (i : ℕ) (q : QueryContext H T N R) (o : Outcome Err (QueryContext H T N R)) (k : Continuation)
      → q.continuation ≡ none
      → after_plugin chain i true q ≡ some o
      → o.1.continuation ≡ some k
      → (k.next ≡ suc i)
        × (k.chain ≡ chain)
        × (k.used ≡ false)
        × (o ≡ (none, record q { continuation = some k }))
  unfolding after_plugin
  after_plugin-suspends i q o k clean e h = ground arith

  grow :
      (i : ℕ) (p : QueryPlugin Err (QueryContext H T N R))
      (ps : List (QueryPlugin Err (QueryContext H T N R))) (q q' : QueryContext H T N R)
      {k : Continuation}
      → ((xs : List (QueryPlugin Err (QueryContext H T N R)))
          → run_query_from chain true i (p ∷ xs) q ≡ run_query_from chain true (suc i) xs q')
      → Suspended (suc i) ps q' k
      → Suspended i (p ∷ ps) q k
  grow i p ps q q' step s = record {
    before = p ∷ s.before;
    suspender = s.suspender;
    left = s.left;
    reached = s.reached;
    parts = ap (λ xs. p ∷ xs) s.parts;
    ran_before = step s.before ∙ s.ran_before;
    not_yet = s.not_yet;
    takes_part = s.takes_part;
    succeeds = s.succeeds;
    outcome = step ps ∙ s.outcome;
    next_is = omega (arith, s.next_is);
    ours = s.ours;
    unused = s.unused;
  }

  run-Suspended :
      (i : ℕ) (ps : List (QueryPlugin Err (QueryContext H T N R))) (q : QueryContext H T N R)
      (k : Continuation)
      → All KeepsContinuation ps
      → q.continuation ≡ none
      → (run_query_from chain true i ps q).1.continuation ≡ some k
      → Suspended i ps q k
  run-Suspended i [] q k keeps clean h = cc (clean, rw (step_done {Err = Err} chain true i q) at h)
  run-Suspended i (p ∷ ps) q k keeps clean h = elim (way chain true i p ps q) [
    | skipped e ↦
        grow i p ps q q (λ xs. step_skip chain true i p xs q e)
          (run-Suspended (suc i) ps q k keeps.1 clean (rw (step_skip chain true i p ps q e) at h))
    | failed x e f ↦ cc (rw (step_error chain true i p ps q e f) at h, keeps.0 q)
    | stopped o e f a ↦
        let (next, ours, unused, left_by) =
          after_plugin-suspends i (p.hook q).1 o k (keeps.0 q ∙ clean) a
            (rw (step_stop chain true i p ps q e f a) at h) in
        record {
          before = [];
          suspender = p;
          left = ps;
          reached = q;
          parts = refl;
          ran_before = step_done chain true i q;
          not_yet = clean;
          takes_part = e;
          succeeds = f;
          outcome = step_stop chain true i p ps q e f a ∙ left_by;
          next_is = omega (arith, next);
          ours = ours;
          unused = unused;
        }
    | went_on e f a ↦
        grow i p ps q (p.hook q).1 (λ xs. step_on chain true i p xs q e f a)
          (run-Suspended (suc i) ps (p.hook q).1 k keeps.1 (keeps.0 q ∙ clean)
            (rw (step_on chain true i p ps q e f a) at h))
  ]

resume_from-run :
    {H T N R Err : Type 0} (chain : ℕ) (ps : List (QueryPlugin Err (QueryContext H T N R)))
    (q : QueryContext H T N R) (k : Continuation)
    → k.chain ≡ chain
    → k.used ≡ false
    → resume_from chain ps (some k) q
      ≡ run_query_from chain false k.next
          (drop k.next ps)
          (record q { continuation = some (record k { used = true }); agent_prepare = none })
unfolding resume_from
resume_from-run chain ps q k ours unused =
    let same : (k.chain == chain) ≡ true = ground arith in simp (same, unused)

pub resume_query-run :
    {H T N R Err : Type 0} (chain : ℕ) (ps : List (QueryPlugin Err (QueryContext H T N R)))
    (q : QueryContext H T N R) (k : Continuation)
    → k.chain ≡ chain
    → k.used ≡ false
    → q.continuation ≡ some k
    → resume_query chain ps q
      ≡ run_query_from chain false k.next
          (drop k.next ps)
          (record q { continuation = some (record k { used = true }); agent_prepare = none })
unfolding resume_query
resume_query-run chain ps q k ours unused e =
    ap (λ c. resume_from chain ps c q) e ∙ resume_from-run chain ps q k ours unused

drop-behind {ℓ} :
    {A : Type ℓ} (xs : List A) (y : A) (ys : List A) → drop (suc (length xs)) (xs ++ y ∷ ys) ≡ ys
drop-behind [] y ys = refl
drop-behind (x ∷ xs) y ys = drop-behind xs y ys

-- If `OnQuery` leaves a continuation on a context that had none, and no hook writes it, then one plugin
-- suspended the chain: those before it ran to their end without a continuation, it was not skipped and
-- succeeded, and the outcome is the context it left, with the continuation. Resuming any context that
-- carries the continuation runs exactly the plugins behind that one.
pub resume_runs_the_rest :
    {H T N R Err : Type 0} (chain : ℕ) (ps : List (QueryPlugin Err (QueryContext H T N R)))
    (q q' : QueryContext H T N R) (k : Continuation)
    → All KeepsContinuation ps
    → q.continuation ≡ none
    → (on_query chain ps q).1.continuation ≡ some k
    → q'.continuation ≡ some k
    → (before : List (QueryPlugin Err (QueryContext H T N R))) × (p : QueryPlugin Err
        (QueryContext H T N R))
      × (left : List (QueryPlugin Err (QueryContext H T N R))) × (reached : QueryContext H T N R)
      × (ps ≡ before ++ p ∷ left)
      × (on_query chain before q ≡ (none, reached))
      × (reached.continuation ≡ none)
      × (query_skips reached.session p.markers ≡ false)
      × ((p.hook reached).0 ≡ none)
      × (on_query chain ps q ≡ (none, record (p.hook reached).1 { continuation = some k }))
      × (resume_query chain ps q'
          ≡ run_query_from chain false
              (suc (length before))
              left
              (record q' { continuation = some (record k { used = true }); agent_prepare = none }))
unfolding on_query
resume_runs_the_rest chain ps q q' k keeps clean h e =
    let s = run-Suspended chain 0 ps q k keeps clean h in
    let rest = record q' { continuation = some (record k { used = true }); agent_prepare = none } in
    let next : k.next ≡ suc (length s.before) = omega (arith, s.next_is) in
    let left : drop k.next ps ≡ s.left =
      rw (next, s.parts) (drop-behind s.before s.suspender s.left) in
    let resumed =
      resume_query-run chain ps q' k s.ours s.unused e
      ∙ ap (λ n. run_query_from chain false n (drop k.next ps) rest) next
      ∙ ap (λ xs. run_query_from chain false (suc (length s.before)) xs rest) left in
    (
      s.before, s.suspender, s.left, s.reached, s.parts, s.ran_before, s.not_yet, s.takes_part,
      s.succeeds, s.outcome, resumed,
    )
