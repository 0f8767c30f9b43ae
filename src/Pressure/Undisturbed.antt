-- ===== src/Pressure/Undisturbed.antt =====
-- Binding, giving up and observing candidates, and the refreshes, change no state of a reservation and
-- nothing of what is reserved.
use housegate.Base.{
  ℕ, refl, Bool, true, false, not, ◌||◌, Option, none, some, List, [], ◌∷◌, String, if_ind, Result,
  ok, err,
}
use housegate.Intake.Records.{CandidatePart}
use housegate.Pressure.Scope.{PartsKey, PartsScope, covers}
use housegate.Pressure.Maps.{PartsMap}
use housegate.Pressure.Guard.{Part, Reservation, Slot, Claim, Observation, Guard}
use housegate.Pressure.Claims.{
  BindError, bind_one, bind_each, bind_candidates, bound_or, check_candidates, is_released,
  find_claim,
}
use housegate.Pressure.Observed.{
  release_found, release_names, release_claims, reconcile_claims, flush_observations,
  mark_persisted,
}
use housegate.Pressure.Debt.{reconcile}
use housegate.Pressure.Skeleton.{
  Alike, Alike-refl, Alike-trans, skeleton-update_part, reconcile-Alike,
}
use housegate.Pressure.Inventory.{PartRow, CountRow, Reading, count_rows, name_rows, number_rows}
use housegate.Pressure.Refresh.{
  apply_exact_scope, reconcile_scope_keys, reconcile_scope, invalidate_keys, invalidate_pending,
  invalidate_pending_from, mark_exact_scope_fresh, install, after_flush, refresh_rows,
  refresh_scope, refresh_counts, apply_count_scope, count_scope,
}

bind_one-Alike :
    (r : Reservation) (b : CandidatePart × ℕ × PartsKey) (g : Guard) → Alike g (bind_one r b g)
unfolding bind_one
bind_one-Alike r (c, n, key) g = record {
  bones = skeleton-update_part r.id n _ g.handles (λ p. refl);
  charge = refl;
  config = refl;
  ids = refl;
  blocked = refl;
}

bind_each-Alike :
    (r : Reservation) (bs : List (CandidatePart × ℕ × PartsKey)) (g : Guard)
    → Alike g (bind_each r bs g)
unfolding bind_each
bind_each-Alike r [] g = Alike-refl g
bind_each-Alike r (b ∷ bs) g =
    Alike-trans g (bind_one r b g) _ (bind_one-Alike r b g) (bind_each-Alike r bs _)

pub bind_candidates-Alike :
    (r : Reservation) (cs : List CandidatePart) (g : Guard) → Alike g (bind_candidates r cs g).1
unfolding bind_candidates
bind_candidates-Alike r cs g =
    if_ind (λ (p : Option BindError × Guard). Alike g p.1) (is_released r.state) (λ _. Alike-refl g)
      (λ _.
        if_ind (λ (p : Option BindError × Guard). Alike g p.1) _ (λ _. Alike-refl g)
          (λ _. by (check_candidates r.id r.parts g.candidate_claims cs)))
  where
    by : (o : Result BindError (List (CandidatePart × ℕ × PartsKey))) → Alike g (bound_or r o g).1
    by (err e) = Alike-refl g
    by (ok bs) = bind_each-Alike r bs g

release_found-Alike :
    (id : ℕ) (key : PartsKey) (name : String) (o : Option Claim) (g : Guard)
    → Alike g (release_found id key name o g)
release_found-Alike id key name none g = Alike-refl g
release_found-Alike id key name (some c) g =
    if_ind (Alike g) _
      (λ _. record { bones = refl; charge = refl; config = refl; ids = refl; blocked = refl })
      (λ _. Alike-refl g)

release_names-Alike :
    (id : ℕ) (key : PartsKey) (names : List String) (g : Guard)
    → Alike g (release_names id key names g)
unfolding release_names
release_names-Alike id key [] g = Alike-refl g
release_names-Alike id key (n ∷ ns) g =
    Alike-trans g (release_found id key n (find_claim key n g.candidate_claims) g) _
      (release_found-Alike id key n _ g) (release_names-Alike id key ns _)

pub release_claims-Alike : (id : ℕ) (ps : List Part) (g : Guard) → Alike g (release_claims id ps g)
unfolding release_claims
release_claims-Alike id [] g = Alike-refl g
release_claims-Alike id (p ∷ ps) g =
    Alike-trans g (release_names id p.key p.candidate_parts g) _
      (release_names-Alike id p.key p.candidate_parts g) (release_claims-Alike id ps _)

reconcile_claims-Alike : (scope : PartsScope) (g : Guard) → Alike g (reconcile_claims scope g)
unfolding reconcile_claims
reconcile_claims-Alike scope g = record {
  bones = refl;
  charge = refl;
  config = refl;
  ids = refl;
  blocked = refl;
}

mark_persisted-Alike : (o : Observation) (g : Guard) → Alike g (mark_persisted o g)
unfolding mark_persisted
mark_persisted-Alike o g = record {
  bones = refl;
  charge = refl;
  config = refl;
  ids = refl;
  blocked = refl;
}

pub flush_observations-Alike :
    (hook : Observation → Bool) (os : List Observation) (g : Guard)
    → Alike g (flush_observations hook os g).1
unfolding flush_observations
flush_observations-Alike hook [] g = record {
  bones = refl;
  charge = refl;
  config = refl;
  ids = refl;
  blocked = refl;
}
flush_observations-Alike hook (o ∷ os) g =
    if_ind (λ (p : Bool × Guard). Alike g p.1) (not g.hooked || hook o)
      {y = (false, record g { pending_observed = o ∷ os })}
      (λ _.
        Alike-trans g (mark_persisted o g) _ (mark_persisted-Alike o g)
          (flush_observations-Alike hook os (mark_persisted o g)))
      (λ _. record { bones = refl; charge = refl; config = refl; ids = refl; blocked = refl })

reconcile_scope_keys-Alike :
    (scope : PartsScope) (m : PartsMap (List Slot)) (g : Guard)
    → Alike g (reconcile_scope_keys scope m g)
unfolding reconcile_scope_keys
reconcile_scope_keys-Alike scope [] g = Alike-refl g
reconcile_scope_keys-Alike scope ((k, ss) ∷ m) g =
    if_ind (λ h. Alike g (reconcile_scope_keys scope m h)) (covers scope k)
      (λ _.
        Alike-trans g (reconcile k g) _ (reconcile-Alike k g)
          (reconcile_scope_keys-Alike scope m (reconcile k g)))
      (λ _. reconcile_scope_keys-Alike scope m g)

reconcile_scope-Alike : (scope : PartsScope) (g : Guard) → Alike g (reconcile_scope scope g)
reconcile_scope-Alike scope g = reconcile_scope_keys-Alike scope g.committed_reservations g

pub invalidate_keys-Alike : (m : PartsKey → Bool) (g : Guard) → Alike g (invalidate_keys m g)
unfolding invalidate_keys
invalidate_keys-Alike m g = record {
  bones = refl;
  charge = refl;
  config = refl;
  ids = refl;
  blocked = refl;
}

pub invalidate_pending-Alike : (g : Guard) → Alike g (invalidate_pending g)
unfolding invalidate_pending
invalidate_pending-Alike g = by g.pending_observed
  where
    by : (os : List Observation) → Alike g (invalidate_pending_from os g)
    by [] = Alike-refl g
    by (o ∷ os) = invalidate_keys-Alike _ g

apply_exact_scope-Alike :
    (scope : PartsScope) (counts : PartsMap ℕ) (names : PartsMap (List String)) (now : ℕ)
    (g : Guard)
    → Alike g (apply_exact_scope scope counts names now g)
unfolding apply_exact_scope
apply_exact_scope-Alike scope counts names now g = record {
  bones = refl;
  charge = refl;
  config = refl;
  ids = refl;
  blocked = refl;
}

apply_count_scope-Alike :
    (scope : PartsScope) (counts : PartsMap ℕ) (now : ℕ) (g : Guard)
    → Alike g (apply_count_scope scope counts now g)
unfolding apply_count_scope
apply_count_scope-Alike scope counts now g = record {
  bones = refl;
  charge = refl;
  config = refl;
  ids = refl;
  blocked = refl;
}

mark_exact_scope_fresh-Alike :
    (scope : PartsScope) (now : ℕ) (g : Guard) → Alike g (mark_exact_scope_fresh scope now g)
unfolding mark_exact_scope_fresh
mark_exact_scope_fresh-Alike scope now g = record {
  bones = refl;
  charge = refl;
  config = refl;
  ids = refl;
  blocked = refl;
}

install-Alike :
    (scope : PartsScope) (x : Reading) (rows : List PartRow) (g : Guard)
    → Alike g (install scope x rows g)
unfolding install
install-Alike scope x rows g =
    let applied = apply_exact_scope scope (count_rows rows []) (name_rows rows []) x.applied_at g in
    let seen = reconcile_claims scope applied in
    let settled = reconcile_scope scope seen in
    Alike-trans g applied _
      (apply_exact_scope-Alike scope (count_rows rows []) (name_rows rows []) x.applied_at g)
      (Alike-trans applied seen _ (reconcile_claims-Alike scope applied) (
        Alike-trans seen settled _ (reconcile_scope-Alike scope seen)
          (invalidate_pending-Alike settled)))

after_flush-Alike :
    (scope : PartsScope) (x : Reading) (p : Bool × Guard) → Alike p.1 (after_flush scope x p).1
unfolding after_flush
after_flush-Alike scope x (false, g) = invalidate_keys-Alike (covers scope) g
after_flush-Alike scope x (true, g) =
    let seen = reconcile_claims scope g in
    let settled = reconcile_scope scope seen in
    let marked = mark_exact_scope_fresh scope x.marked_at settled in
    Alike-trans g seen _ (reconcile_claims-Alike scope g) (
      Alike-trans seen settled _ (reconcile_scope-Alike scope seen) (
        Alike-trans settled marked _ (mark_exact_scope_fresh-Alike scope x.marked_at settled)
          (invalidate_pending-Alike marked)))

refresh_rows-Alike :
    (scope : PartsScope) (x : Reading) (rows : Option (List PartRow)) (g : Guard)
    → Alike g (refresh_rows scope x rows g).1
unfolding refresh_rows
refresh_rows-Alike scope x none g = Alike-refl g
refresh_rows-Alike scope x (some rows) g =
    let installed = install scope x rows g in
    Alike-trans g installed _ (install-Alike scope x rows g) (
      Alike-trans installed _ _
        (flush_observations-Alike x.hook installed.pending_observed installed)
        (after_flush-Alike scope x _))

-- A refresh, whether it succeeds or not.
pub refresh_scope-Alike :
    (scope : PartsScope) (x : Reading) (g : Guard) → Alike g (refresh_scope scope x g).1
unfolding refresh_scope
refresh_scope-Alike scope x g = refresh_rows-Alike scope x x.rows g

pub refresh_counts-Alike :
    (rows : Option (List CountRow)) (now : ℕ) (g : Guard) → Alike g (refresh_counts rows now g).1
unfolding refresh_counts
refresh_counts-Alike none now g = Alike-refl g
refresh_counts-Alike (some rows) now g =
    let applied = apply_count_scope (count_scope g) (number_rows rows []) now g in
    Alike-trans g applied _ (apply_count_scope-Alike (count_scope g) (number_rows rows []) now g)
      (reconcile_scope-Alike (count_scope g) applied)
