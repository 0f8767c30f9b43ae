-- ===== src/Pressure/Fence.antt =====
-- A restore that failed closes admission until another one succeeds.
use housegate.Base.{
  ℕ, ◌≡◌, refl, ap, ◌∙◌, Bool, true, false, Option, none, some, List, [], ◌∷◌, String, Result, ok,
  err, if◌then◌else◌,
}
use housegate.Pressure.Scope.{ScopeError, partition_texts}
use housegate.Pressure.Guard.{Guard, set_observed_hook, Part}
use housegate.Pressure.Lifecycle.{commit, commit_indeterminate, finalize}
use housegate.Pressure.Admission.{
  BackpressureError, check_table_available, check_available, unavailable_at, capture, admit,
  admitted_if, new_reservation,
}
use housegate.Pressure.Inventory.{Reading}
use housegate.Pressure.Refresh.{refresh_scope, exact_scope}
use housegate.Pressure.Calls.{
  ReserveError, refused, cancelled, refresh_failed, bad_partitions, scope_of, named_reservation,
  reserve_refreshed, reserve_parsed, reserve,
}
use housegate.Pressure.Restore.{RestoreRecord, RestoreError}
use housegate.Pressure.Batch.{
  Restored, failed, skipped, installed, Applied, every_key, block, roll_back, restore_record,
  applied_record, restore_next, restore_each, restore_flushed, restore_installed, restore_refreshed,
  restore_batch,
}
use housegate.Pressure.Undisturbed.{
  bind_candidates-Alike, refresh_scope-Alike, refresh_counts-Alike, invalidate_keys-Alike,
}
use housegate.Pressure.Cleaning.{prepare_cleanup_proof-Alike}
use housegate.Pressure.History.{
  Call, reserves, commits, commits_indeterminate, releases, finalizes, prepares_cleanup,
  releases_cleaned, sets_hook, refreshes, counts,
}
use housegate.Pressure.Latch.{
  Latched, committed-Latched, finalize_locked-Latched, release-Latched, release_cleaned-Latched,
}

-- `Reserve` under the latch.
abbrev Refuses : {E : Type 0} → Result E ℕ × Guard → Type 0
Refuses {E} p = (why : E) × (p.0 ≡ err why)

admit-Latched : (parts : List Part) (g : Guard) → Latched g (admit parts g).1
unfolding admit
admit-Latched parts g = refl

module _ (now : ℕ) (is_cancelled : Bool) (x : Reading) (statement table : String)
    (ids : List String) where
  check_available-latched :
      (g : Guard)
      → g.restore_blocked ≡ true
      → check_available now g table "" ≡ some (unavailable_at table "")
  unfolding check_available check_table_available
  check_available-latched g latch = rw latch refl

  new_reservation-Refuses :
      (g : Guard) → g.restore_blocked ≡ true → Refuses (new_reservation now table ids true g)
  unfolding new_reservation
  new_reservation-Refuses g latch = (
    unavailable_at table "",
    ap (λ e. (admitted_if e (capture now g table true [] ids) g).0)
        (check_available-latched g latch),
  )

  named-Refuses :
      (r : Result BackpressureError ℕ × Guard) → Refuses r → Refuses (named_reservation statement r)
  named-Refuses (err e, g) h = (refused e, refl)
  named-Refuses (ok id, g) (why, h) = cc

  refreshed-Refuses :
      (p : Bool × Guard)
      → p.1.restore_blocked ≡ true
      → Refuses (reserve_refreshed now is_cancelled statement table ids p)
  refreshed-Refuses (false, g) latch = (if is_cancelled then cancelled else refresh_failed, refl)
  refreshed-Refuses (true, g) latch = named-Refuses _ (new_reservation-Refuses g latch)

  parsed-Refuses :
      (o : Result ScopeError (List String × Bool)) (g : Guard)
      → g.restore_blocked ≡ true
      → Refuses (reserve_parsed now is_cancelled x statement table ids o g)
  parsed-Refuses (err e) g latch = (bad_partitions e, refl)
  parsed-Refuses (ok texts) g latch =
      let scope = scope_of g table ids in
      refreshed-Refuses (refresh_scope scope x g) ((refresh_scope-Alike scope x g).blocked ∙ latch)

  reserve-Refuses :
      (g : Guard)
      → g.restore_blocked ≡ true
      → Refuses (reserve now is_cancelled x statement table ids g)
  unfolding reserve
  reserve-Refuses g latch = parsed-Refuses (partition_texts ids) g latch

  -- What `Reserve` does to the latch.
  new_reservation-Latched : (g : Guard) → Latched g (new_reservation now table ids true g).1
  unfolding new_reservation
  new_reservation-Latched g = by (check_available now g table "") (capture now g table true [] ids)
    where
      by :
          (e : Option BackpressureError) (o : Result BackpressureError (List Part))
          → Latched g (admitted_if e o g).1
      by (some e) o = refl
      by none (err e) = refl
      by none (ok parts) = admit-Latched parts g

  named-Latched :
      (r : Result BackpressureError ℕ × Guard) → Latched r.1 (named_reservation statement r).1
  named-Latched (err e, g) = refl
  named-Latched (ok id, g) = refl

  reserve-Latched : (g : Guard) → Latched g (reserve now is_cancelled x statement table ids g).1
  unfolding reserve
  reserve-Latched g = by (partition_texts ids)
    where
      refreshed :
          (p : Bool × Guard)
          → Latched p.1 (reserve_refreshed now is_cancelled statement table ids p).1
      refreshed (false, h) = refl
      refreshed (true, h) =
          named-Latched (new_reservation now table ids true h) ∙ new_reservation-Latched h

      by :
          (o : Result ScopeError (List String × Bool))
          → Latched g (reserve_parsed now is_cancelled x statement table ids o g).1
      by (err e) = refl
      by (ok texts) =
          let scope = scope_of g table ids in
          refreshed (refresh_scope scope x g) ∙ (refresh_scope-Alike scope x g).blocked

Call-Latched : {g h : Guard} → Call g h → Latched g h
unfolding commit commit_indeterminate finalize set_observed_hook
Call-Latched {g} (reserves now is_cancelled x statement table ids) =
    reserve-Latched now is_cancelled x statement table ids g
Call-Latched {g} (commits id r cs e) =
    committed-Latched r _ ∙ (bind_candidates-Alike r cs g).blocked
Call-Latched {g} (commits_indeterminate id r e) = committed-Latched r _
Call-Latched {g} (releases id r e) = release-Latched r g
Call-Latched {g} (finalizes id r e) = finalize_locked-Latched r g
Call-Latched {g} (prepares_cleanup id r x cs e) = (prepare_cleanup_proof-Alike r x cs g).blocked
Call-Latched {g} (releases_cleaned id r x e) = release_cleaned-Latched x r g
Call-Latched {g} sets_hook = refl
Call-Latched {g} (refreshes scope x) = (refresh_scope-Alike scope x g).blocked
Call-Latched {g} (counts rows now) = (refresh_counts-Alike rows now g).blocked

-- A restore that fails leaves the latch closed.
abbrev LatchedIf : {A : Type 0} → Result RestoreError A × Guard → Type 0
LatchedIf (err e, g) = g.restore_blocked ≡ true
LatchedIf (ok a, g) = Unit

block-latched : (g : Guard) → (block g).restore_blocked ≡ true
block-latched g = (invalidate_keys-Alike every_key (record g { restore_blocked = true })).blocked

restore_next-LatchedIf :
    (d : RestoreRecord) (applied : List Applied)
    (rest : List Applied → Guard → Result RestoreError (List Applied) × Guard)
    (p : Restored × Guard)
    → ((a : List Applied) (g : Guard) → LatchedIf (rest a g))
    → LatchedIf (restore_next d applied rest p)
restore_next-LatchedIf d applied rest (failed e, g) keeps = block-latched (roll_back applied g)
restore_next-LatchedIf d applied rest (skipped, g) keeps = keeps applied g
restore_next-LatchedIf d applied rest (installed id, g) keeps =
    keeps (applied_record d id ∷ applied) g

restore_each-LatchedIf :
    (now : ℕ) (seen : List String) (ds : List RestoreRecord) (applied : List Applied) (g : Guard)
    → LatchedIf (restore_each now seen ds applied g)
unfolding restore_each
restore_each-LatchedIf now seen [] applied g = tt
restore_each-LatchedIf now seen (d ∷ ds) applied g =
    restore_next-LatchedIf d applied (restore_each now (d.statement_id ∷ seen) ds)
      (restore_record now seen d g)
      (λ a h. restore_each-LatchedIf now (d.statement_id ∷ seen) ds a h)

module _ (now : ℕ) (is_cancelled : Bool) (x : Reading) where
  flushed-LatchedIf :
      (applied : List Applied) (p : Bool × Guard) → LatchedIf (restore_flushed applied p)
  flushed-LatchedIf applied (false, g) = block-latched (roll_back applied g)
  flushed-LatchedIf applied (true, g) = tt

  installed-LatchedIf :
      (p : Result RestoreError (List Applied) × Guard)
      → LatchedIf p
      → LatchedIf (restore_installed x p)
  installed-LatchedIf (err e, g) h = h
  installed-LatchedIf (ok applied, g) h = flushed-LatchedIf applied _

  refreshed-LatchedIf :
      (ds : List RestoreRecord) (p : Bool × Guard)
      → LatchedIf (restore_refreshed now is_cancelled x ds p)
  refreshed-LatchedIf ds (false, g) = block-latched g
  refreshed-LatchedIf ds (true, g) =
      installed-LatchedIf _
        (restore_each-LatchedIf now [] ds [] (record g { restore_blocked = false }))

  restore_batch-LatchedIf :
      (ds : List RestoreRecord) (g : Guard) → LatchedIf (restore_batch now is_cancelled x ds g)
  unfolding restore_batch
  restore_batch-LatchedIf ds g = refreshed-LatchedIf ds (refresh_scope (exact_scope g) x g)

err-latched :
    {A : Type 0} (r : Result RestoreError A × Guard) (e : RestoreError)
    → r.0 ≡ err e
    → LatchedIf r
    → r.1.restore_blocked ≡ true
err-latched (err why, g) e h latch = latch
err-latched (ok a, g) e h latch = cc

-- Calls other than a restore.
pub data Calls (g : Guard) : Guard → Type 0 where
  none_yet : Calls g g
  and_then : {h k : Guard} → Calls g h → Call h k → Calls g k

Calls-Latched : {g h : Guard} → Calls g h → Latched g h
Calls-Latched none_yet = refl
Calls-Latched (and_then cs c) = Call-Latched c ∙ Calls-Latched cs

-- After a `RestoreBatch` that failed, whatever calls other than a restore follow, `Reserve` gives an error,
-- also where it reads the inventory anew.
pub failed_restore_fences :
    (now : ℕ) (is_cancelled : Bool) (x : Reading) (ds : List RestoreRecord) (g : Guard)
    (e : RestoreError) {h : Guard}
    → (restore_batch now is_cancelled x ds g).0 ≡ err e
    → Calls (restore_batch now is_cancelled x ds g).1 h
    → (at : ℕ) (is_late : Bool) (y : Reading) (statement table : String) (ids : List String)
    → (why : ReserveError) × ((reserve at is_late y statement table ids h).0 ≡ err why)
failed_restore_fences now is_cancelled x ds g e {h} wrong cs at is_late y statement table ids =
    reserve-Refuses at is_late y statement table ids h (
      Calls-Latched cs
      ∙ err-latched (restore_batch now is_cancelled x ds g) e wrong
          (restore_batch-LatchedIf now is_cancelled x ds g))
