-- ===== src/Pressure/Observing.antt =====
-- An inventory never moves an exact part to another owner: the claim stays, or the part is not active.
use housegate.Base.{
  ℕ, ◌≡◌, refl, ap, ◌∙◌, subst, Bool, true, false, not, ◌&&◌, ◌||◌, Option, none, some, List, [],
  ◌∷◌, String, str_eq, str_eq→eq, arith, if_ind, Bool-cases, ◌⊎◌, inl, inr,
}
use housegate.Pressure.Scope.{
  PartsKey, PartsScope, key_eq, key_eq→eq, covers, has_text, physical_table_name,
}
use housegate.Pressure.Maps.{get_or}
use housegate.Pressure.Guard.{Claim, Observation, Guard, key_of}
use housegate.Pressure.Claims.{is_claim_of, find_claim}
use housegate.Pressure.Observed.{
  is_retired, reconcile_claim, claim_onto, reconcile_each, reconcile_claims, persisted,
  mark_persisted, flush_observations,
}
use housegate.Pressure.Owners.{owner, owner-find_claim, find_claim-at}
use housegate.Pressure.Binding.{put_claim-stays}
use housegate.Pressure.Intact.{
  Intact, Intact-trans, reconcile_scope-Intact, invalidate_keys-Intact, invalidate_pending-Intact,
  mark_exact_scope_fresh-Intact,
}
use housegate.Pressure.Inventory.{PartRow, Reading, count_rows, name_rows}
use housegate.Pressure.Refresh.{
  apply_exact_scope, reconcile_scope, invalidate_keys, mark_exact_scope_fresh, install, after_flush,
  refresh_rows, refresh_scope,
}

-- What becomes of one claim.
abbrev Survives : Guard → Claim → Option Claim → Type 0
Survives g c none = has_text c.name (get_or [] c.key g.active_parts) ≡ false
Survives g c (some d) = (d.key ≡ c.key) × (d.name ≡ c.name) × (d.reservation ≡ c.reservation)

reconcile_claim-Survives :
    (scope : PartsScope) (g : Guard) (c : Claim) (os : List Observation)
    → Survives g c (reconcile_claim scope g c os).0
unfolding reconcile_claim
reconcile_claim-Survives scope g c os =
    if_ind Still (not (covers scope c.key)) (λ _. (refl, refl, refl))
      (λ _.
        if_ind Still (has_text c.name (get_or [] c.key g.active_parts)) (λ _. (refl, refl, refl))
          (λ unseen. if_ind Still (is_retired g c) (λ _. unseen) (λ _. (refl, refl, refl))))
  where
    Still : Option Claim × List Observation → Type 0
    Still p = Survives g c p.0

module _ (k : PartsKey) (name : String) (i : ℕ) where
  -- The part belongs to `i`, or it is not active.
  abbrev pub Kept : Guard → Type 0
  Kept g =
      (owner k name g.candidate_claims ≡ some i)
      ⊎ (has_text name (get_or [] k g.active_parts) ≡ false)

  claim_onto-Kept :
      (g : Guard) (c : Claim) (o : Option Claim) (cs ds : List Claim)
      → Survives g c o
      → owner k name (c ∷ cs) ≡ some i
      → (owner k name cs ≡ some i
          → (owner k name ds ≡ some i) ⊎ (has_text name (get_or [] k g.active_parts) ≡ false))
      → (owner k name (claim_onto o ds) ≡ some i)
        ⊎ (has_text name (get_or [] k g.active_parts) ≡ false)
  unfolding owner
  claim_onto-Kept g c none cs ds s h rest = elim (Bool-cases (is_claim_of k name c)) [
    | inl e ↦
        let at_key = key_eq→eq c.key k (ground (arith, e)) in
        let at_name = str_eq→eq c.name name (ground (arith, e)) in
        inr (
          subst (λ n. has_text n (get_or [] k g.active_parts) ≡ false) at_name
            (subst (λ j. has_text c.name (get_or [] j g.active_parts) ≡ false) at_key s))
    | inr e ↦ rest (rw e at h)
  ]
  claim_onto-Kept g c (some d) cs ds s h rest =
      let same : is_claim_of k name d ≡ is_claim_of k name c =
        ap (λ j. key_eq j k && str_eq d.name name) s.0
        ∙ ap (λ n. key_eq c.key k && str_eq n name) s.1 in
      elim (Bool-cases (is_claim_of k name c)) [
        | inl e ↦ inl (rw (same, e) (ap some s.2 ∙ (rw e at h)))
        | inr e ↦ elim (rest (rw e at h)) [
          | inl stays ↦ inl (rw (same, e) stays)
          | inr gone ↦ inr gone
        ]
      ]

  reconcile_each-Kept :
      (scope : PartsScope) (g : Guard) (cs : List Claim) (os : List Observation)
      → owner k name cs ≡ some i
      → (owner k name (reconcile_each scope g cs os).0 ≡ some i)
        ⊎ (has_text name (get_or [] k g.active_parts) ≡ false)
  unfolding reconcile_each owner
  reconcile_each-Kept scope g [] os h = cc
  reconcile_each-Kept scope g (c ∷ cs) os h =
      let p = reconcile_claim scope g c os in
      claim_onto-Kept g c p.0 cs (reconcile_each scope g cs p.1).0
        (reconcile_claim-Survives scope g c os) h
        (λ later. reconcile_each-Kept scope g cs p.1 later)

  reconcile_claims-Kept :
      (scope : PartsScope) (g : Guard) → Kept g → Kept (reconcile_claims scope g)
  unfolding reconcile_claims
  reconcile_claims-Kept scope g (inl h) =
      reconcile_each-Kept scope g g.candidate_claims g.pending_observed h
  reconcile_claims-Kept scope g (inr h) = inr h

  pub Intact-Kept : (g h : Guard) → Intact g h → Kept g → Kept h
  Intact-Kept g h a (inl e) = inl (ap (owner k name) a.claims ∙ e)
  Intact-Kept g h a (inr e) = inr (ap (λ m. has_text name (get_or [] k m)) a.parts ∙ e)

  mark_persisted-Kept : (o : Observation) (g : Guard) → Kept g → Kept (mark_persisted o g)
  unfolding mark_persisted
  mark_persisted-Kept o g (inr e) = inr e
  mark_persisted-Kept o g (inl e) = inl (go (find_claim key name' cs) refl)
    where
      cs : List Claim
      cs = g.candidate_claims

      key : PartsKey
      key = key_of g (physical_table_name o.candidate.table_id) o.candidate.partition_id

      name' : String
      name' = o.candidate.part_name

      go :
          (f : Option Claim)
          → find_claim key name' cs ≡ f
          → owner k name (persisted o f cs) ≡ some i
      go none h = e
      go (some c) h =
          let d = record c { observed_active = true; observed_persisted = true } in
          let at = find_claim-at key name' cs c h in
          let own = owner-find_claim key name' cs c h in
          let here : owner c.key c.name cs ≡ some c.reservation =
            ap (λ j. owner j c.name cs) (key_eq→eq c.key key (ground (arith, at)))
            ∙ ap (λ n. owner key n cs) (str_eq→eq c.name name' (ground (arith, at)))
            ∙ own in
          if_ind (λ ds. owner k name ds ≡ some i) (str_eq c.statement_id o.statement_id)
            (λ _. put_claim-stays d cs k name i here e) (λ _. e)

  flush_observations-Kept :
      (hook : Observation → Bool) (os : List Observation) (g : Guard)
      → Kept g
      → Kept (flush_observations hook os g).1
  unfolding flush_observations
  flush_observations-Kept hook [] g h = h
  flush_observations-Kept hook (o ∷ os) g h =
      if_ind (λ (p : Bool × Guard). Kept p.1) (not g.hooked || hook o)
        {y = (false, record g { pending_observed = o ∷ os })}
        (λ _. flush_observations-Kept hook os (mark_persisted o g) (mark_persisted-Kept o g h))
        (λ _. h)

  after_flush-Kept :
      (scope : PartsScope) (x : Reading) (p : Bool × Guard)
      → Kept p.1
      → Kept (after_flush scope x p).1
  unfolding after_flush
  after_flush-Kept scope x (false, g) h =
      Intact-Kept g (invalidate_keys (covers scope) g) (invalidate_keys-Intact (covers scope) g) h
  after_flush-Kept scope x (true, g) h =
      let seen = reconcile_claims scope g in
      let settled = reconcile_scope scope seen in
      let marked = mark_exact_scope_fresh scope x.marked_at settled in
      Intact-Kept seen _
        (Intact-trans seen settled _ (reconcile_scope-Intact scope seen) (
          Intact-trans settled marked _ (mark_exact_scope_fresh-Intact scope x.marked_at settled)
            (invalidate_pending-Intact marked)))
        (reconcile_claims-Kept scope g h)

  install-Kept :
      (scope : PartsScope) (x : Reading) (rows : List PartRow) (g : Guard)
      → owner k name g.candidate_claims ≡ some i
      → Kept (install scope x rows g)
  unfolding install apply_exact_scope
  install-Kept scope x rows g h =
      let applied =
        apply_exact_scope scope (count_rows rows []) (name_rows rows []) x.applied_at g in
      let seen = reconcile_claims scope applied in
      let settled = reconcile_scope scope seen in
      Intact-Kept seen _
        (Intact-trans seen settled _ (reconcile_scope-Intact scope seen)
          (invalidate_pending-Intact settled))
        (reconcile_claims-Kept scope applied (inl h))

  refresh_rows-Kept :
      (scope : PartsScope) (x : Reading) (o : Option (List PartRow)) (g : Guard)
      → owner k name g.candidate_claims ≡ some i
      → Kept (refresh_rows scope x o g).1
  unfolding refresh_rows
  refresh_rows-Kept scope x none g h = inl h
  refresh_rows-Kept scope x (some rows) g h =
      let installed = install scope x rows g in
      after_flush-Kept scope x (flush_observations x.hook installed.pending_observed installed) (
        flush_observations-Kept x.hook installed.pending_observed installed
          (install-Kept scope x rows g h))

  pub refresh_scope-Kept :
      (scope : PartsScope) (x : Reading) (g : Guard)
      → owner k name g.candidate_claims ≡ some i
      → Kept (refresh_scope scope x g).1
  unfolding refresh_scope
  refresh_scope-Kept scope x g h = refresh_rows-Kept scope x x.rows g h
