-- ===== src/Intake/Frontier.antt =====
-- The source frontier of pkg/storageintegrity/intake.go: the gate that lets one statement at a time
-- write to a source, with its queue (`acquireFrontier`, `releaseFrontier`, `removeWaiter`). The mutex
-- makes each operation one step; a waiter is known by a ticket, as the code knows it by its pointer.
pub mod Order
pub mod Serving
mod Examples
use housegate.Base.{
  ℕ, zero, suc, ◌≡◌, ◌≢◌, refl, Bool, true, false, not, ◌||◌, Option, none, some, List, [], ◌∷◌,
  ◌++◌, String, str_eq, str_eq→eq, ◌==◌, if◌then◌else◌, if_ind, All, Bool-cases, inl, inr,
}

pub record Waiter : Type 0 where
  pub statement_id : String
  pub ticket : ℕ

-- `holder` is "" where the frontier is free.
pub record SourceFrontier : Type 0 where
  pub holder : String
  pub recovered : List String
  pub waiters : List Waiter

-- `removeWaiterByStatement`: the first waiter of the statement.
unfoldable pub remove_by_statement : String → List Waiter → List Waiter
remove_by_statement id [] = []
remove_by_statement id (w ∷ ws) =
    let rest = remove_by_statement id ws in if str_eq w.statement_id id then ws else w ∷ rest

-- `removeWaiter`: the queue without the ticket, or `none` where it does not wait.
unfoldable pub remove_waiter : ℕ → List Waiter → Option (List Waiter)
remove_waiter t [] = none
remove_waiter t (w ∷ ws) =
    let rest = remove_waiter t ws in
    if w.ticket == t then some ws else elim rest [ none ↦ none | some xs ↦ some (w ∷ xs) ]

-- `acquireFrontier` up to the wait: whether the caller holds the frontier at once.
unfoldable pub acquire_frontier : String → ℕ → SourceFrontier → Bool × SourceFrontier
acquire_frontier id ticket f =
    if str_eq f.holder "" || str_eq f.holder id then (true, record f { holder = id }) else (
      false,
      record f { waiters = f.waiters ++ (record { statement_id = id; ticket = ticket }) ∷ [] },
    )

-- Who is next: the recovered statements first, then the waiters in their order.
abbrev pub hand_over : List String → List Waiter → SourceFrontier
hand_over (id ∷ ids) ws = record {
  holder = id;
  recovered = ids;
  waiters = remove_by_statement id ws;
}
hand_over [] (w ∷ ws) = record { holder = w.statement_id; recovered = []; waiters = ws }
hand_over [] [] = record { holder = ""; recovered = []; waiters = [] }

-- `releaseFrontier`
unfoldable pub release_frontier : String → SourceFrontier → SourceFrontier
release_frontier id f = if str_eq f.holder id then hand_over f.recovered f.waiters else f

-- The end of a wait by its context: the waiter leaves the queue, or gives back what it was handed.
unfoldable pub cancel_wait : String → ℕ → SourceFrontier → SourceFrontier
unfolding remove_waiter release_frontier
cancel_wait id ticket f = elim (remove_waiter ticket f.waiters) [
  | some ws ↦ record f { waiters = ws }
  | none ↦ release_frontier id f
]

-- `recoveredHolderQueued`, and `fenceRecoveredFrontierLocked` for a source that has a name.
unfoldable pub is_queued : String → List String → Bool
is_queued id [] = false
is_queued id (x ∷ xs) = str_eq x id || is_queued id xs

unfoldable pub fence_recovered : String → SourceFrontier → SourceFrontier
unfolding is_queued
fence_recovered id f =
    if str_eq id ""
    then f
    else if str_eq f.holder ""
    then record f { holder = id }
    else if str_eq f.holder id || is_queued id f.recovered
    then f
    else record f { recovered = f.recovered ++ id ∷ [] }

-- One call on the frontier; a statement that acquires it has an id.
pub data Step (f : SourceFrontier) : SourceFrontier → Type 0 where
  acquires : (id : String) (t : ℕ) → id ≢ "" → Step f (acquire_frontier id t f).1
  fences : (id : String) → Step f (fence_recovered id f)
  releases : (id : String) → Step f (release_frontier id f)
  cancels : (id : String) (t : ℕ) → Step f (cancel_wait id t f)

pub data Reach (f : SourceFrontier) : SourceFrontier → Type 0 where
  here : Reach f f
  next : {u v : SourceFrontier} → Reach f u → Step u v → Reach f v
