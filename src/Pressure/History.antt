-- ===== src/Pressure/History.antt =====
-- Histories of calls on a guard, and the ledger after any of them.
use housegate.Base.{ℕ, ◌≡◌, refl, Bool, true, Option, some, List, String, Result, ok, err}
use housegate.Intake.Records.{CandidatePart}
use housegate.Pressure.Scope.{PartsKey, PartsScope}
use housegate.Pressure.Maps.{get, get_or}
use housegate.Pressure.Guard.{
  PressureConfig, Reservation, Guard, find_handle, new_parts_pressure_guard, set_observed_hook,
}
use housegate.Pressure.Lifecycle.{commit, commit_indeterminate, release, finalize}
use housegate.Pressure.Skeleton.{skeleton}
use housegate.Pressure.Undisturbed.{refresh_scope-Alike, refresh_counts-Alike}
use housegate.Pressure.Ledger.{outstanding, IsBalanced}
use housegate.Pressure.Balance.{Alike-IsBalanced}
use housegate.Pressure.Closing.{
  commit-IsBalanced, commit_indeterminate-IsBalanced, release-IsBalanced, finalize-IsBalanced,
}
use housegate.Pressure.Reserving.{find_handle-Held, Fair, reserve-Fair}
use housegate.Pressure.Cleaning.{prepare_cleanup_proof-Alike, release_cleaned-IsBalanced}
use housegate.Pressure.Restoring.{restore_batch-IsBalanced}
use housegate.Pressure.Inventory.{Reading, CountRow}
use housegate.Pressure.Refresh.{refresh_scope, refresh_counts}
use housegate.Pressure.Calls.{reserve}
use housegate.Pressure.Cleanup.{prepare_cleanup_proof, release_cleaned}
use housegate.Pressure.Restore.{RestoreRecord}
use housegate.Pressure.Batch.{restore_batch}

-- A method of the reservation with the id, which stands for its pointer.
pub data Call (g : Guard) : Guard → Type 0 where
  reserves :
      (now : ℕ) (is_cancelled : Bool) (x : Reading) (statement table : String) (ids : List String)
      → Call g (reserve now is_cancelled x statement table ids g).1
  commits :
      (id : ℕ) (r : Reservation) (cs : List CandidatePart)
      → find_handle id g.handles ≡ some r
      → Call g (commit r cs g).1
  commits_indeterminate :
      (id : ℕ) (r : Reservation)
      → find_handle id g.handles ≡ some r
      → Call g (commit_indeterminate r g)
  releases : (id : ℕ) (r : Reservation) → find_handle id g.handles ≡ some r → Call g (release r g)
  finalizes : (id : ℕ) (r : Reservation) → find_handle id g.handles ≡ some r → Call g (finalize r g)
  prepares_cleanup :
      (id : ℕ) (r : Reservation) (x : Reading) (cs : List CandidatePart)
      → find_handle id g.handles ≡ some r
      → Call g (prepare_cleanup_proof x r cs g).1
  releases_cleaned :
      (id : ℕ) (r : Reservation) (x : Reading)
      → find_handle id g.handles ≡ some r
      → Call g (release_cleaned x r g).1
  sets_hook : Call g (set_observed_hook true g)
  refreshes : (scope : PartsScope) (x : Reading) → Call g (refresh_scope scope x g).1
  counts : (rows : Option (List CountRow)) (now : ℕ) → Call g (refresh_counts rows now g).1

pub data Step (g : Guard) : Guard → Type 0 where
  calls : {h : Guard} → Call g h → Step g h
  restores :
      (now : ℕ) (is_cancelled : Bool) (x : Reading) (ds : List RestoreRecord)
      → Step g (restore_batch now is_cancelled x ds g).1

pub data Reach (g : Guard) : Guard → Type 0 where
  here : Reach g g
  next : {h k : Guard} → Reach g h → Step h k → Reach g k

Fair-IsBalanced :
    {E : Type 0} (g : Guard) (p : Result E ℕ × Guard) → IsBalanced g → Fair g p → IsBalanced p.1
Fair-IsBalanced g (err e, h) b alike = Alike-IsBalanced g h alike b
Fair-IsBalanced g (ok id, h) b c = c

Call-IsBalanced : {g h : Guard} → Call g h → IsBalanced g → IsBalanced h
unfolding set_observed_hook
Call-IsBalanced {g} (reserves now is_cancelled x statement table ids) b =
    Fair-IsBalanced g (reserve now is_cancelled x statement table ids g) b
      (reserve-Fair now is_cancelled x statement table ids g b)
Call-IsBalanced {g} (commits id r cs e) b = commit-IsBalanced r g (find_handle-Held id r g e) b cs
Call-IsBalanced {g} (commits_indeterminate id r e) b =
    commit_indeterminate-IsBalanced r g (find_handle-Held id r g e) b
Call-IsBalanced {g} (releases id r e) b = release-IsBalanced r g (find_handle-Held id r g e) b
Call-IsBalanced {g} (finalizes id r e) b = finalize-IsBalanced r g (find_handle-Held id r g e) b
Call-IsBalanced {g} (prepares_cleanup id r x cs e) b =
    Alike-IsBalanced g (prepare_cleanup_proof x r cs g).1 (prepare_cleanup_proof-Alike r x cs g) b
Call-IsBalanced {g} (releases_cleaned id r x e) b = release_cleaned-IsBalanced x r g b
Call-IsBalanced {g} sets_hook b = b
Call-IsBalanced {g} (refreshes scope x) b =
    Alike-IsBalanced g (refresh_scope scope x g).1 (refresh_scope-Alike scope x g) b
Call-IsBalanced {g} (counts rows now) b =
    Alike-IsBalanced g (refresh_counts rows now g).1 (refresh_counts-Alike rows now g) b

Step-IsBalanced : {g h : Guard} → Step g h → IsBalanced g → IsBalanced h
Step-IsBalanced (calls c) b = Call-IsBalanced c b
Step-IsBalanced {g} (restores now is_cancelled x ds) b =
    restore_batch-IsBalanced now is_cancelled x ds g b

Reach-IsBalanced : {g h : Guard} → Reach g h → IsBalanced g → IsBalanced h
Reach-IsBalanced here b = b
Reach-IsBalanced (next r s) b = Step-IsBalanced s (Reach-IsBalanced r b)

-- After any calls on a new guard, failed ones included, what is reserved at a key is the number of
-- reservations in the state reserved that have the key.
pub ledger_is_exact :
    (c : PressureConfig) {g : Guard}
    → Reach (new_parts_pressure_guard c) g
    → (k : PartsKey) → get_or 0 k g.reserved ≡ outstanding k (skeleton g.handles)
unfolding new_parts_pressure_guard outstanding get_or get
ledger_is_exact c r = Reach-IsBalanced r (λ k. refl)
