-- ===== src/Seq/Selector/Counts.antt =====
-- What is in flight on a lane is what has been picked and not been done: the invariant of `inflight`, and
-- that every call keeps it.
use housegate.Base.{
  ℕ, ◌+◌, ◌≤◌, ◌≡◌, ◌≢◌, refl, ◌∙◌, Bool, true, false, not, ◌&&◌, List, [], ◌∷◌, ◌++◌, Result, ok,
  err, arith, if_ind, if◌then◌else◌, Bytes, bytes_eq, bytes_eq→eq, bytes_eq_refl,
}
use housegate.Seq.Lane.{LanedStore}
use housegate.Seq.Pool.{PoolAnswers, LanePool, AcquireReason, AcquireError, acquire}
use housegate.Seq.Selector.{
  Selector, Done, PickError, PickResult, refused, picked, waits, in_flight, put_in_flight,
  drop_in_flight, acquire_locked, take_acquired,
}

pub in_flight-put_in_flight :
    (k key : Bytes) (n : ℕ) (m : List (Bytes × ℕ))
    → in_flight k (put_in_flight key n m) ≡ (if bytes_eq key k then n else in_flight k m)
unfolding in_flight put_in_flight
in_flight-put_in_flight k key n [] = refl
in_flight-put_in_flight k key n ((j, i) ∷ m) = ground (
  arith,
  in_flight-put_in_flight k key n m,
  bytes_eq→eq j key,
  bytes_eq→eq j k,
  bytes_eq→eq key k,
  bytes_eq_refl k,
  bytes_eq_refl key,
)

pub in_flight-drop_in_flight :
    (k key : Bytes) (m : List (Bytes × ℕ))
    → in_flight k (drop_in_flight key m) ≡ (if bytes_eq key k then 0 else in_flight k m)
unfolding in_flight drop_in_flight
in_flight-drop_in_flight k key [] = ground arith
in_flight-drop_in_flight k key ((j, i) ∷ m) = ground (
  arith,
  in_flight-drop_in_flight k key m,
  bytes_eq→eq j key,
  bytes_eq→eq j k,
  bytes_eq→eq key k,
  bytes_eq_refl k,
  bytes_eq_refl key,
)

-- How many of the done functions of a lane have not run.
unfoldable pub pending_dones : Bytes → List Done → ℕ
pending_dones key [] = 0
pending_dones key (d ∷ ds) =
    let rest = pending_dones key ds in
    if bytes_eq d.key key && not d.has_run then rest + 1 else rest

pub pending_dones-append :
    (key : Bytes) (ds es : List Done)
    → pending_dones key (ds ++ es) ≡ pending_dones key ds + pending_dones key es
unfolding pending_dones
pending_dones-append key [] es = omega arith
pending_dones-append key (d ∷ ds) es = ground (arith, pending_dones-append key ds es)

-- A selector with the done functions that its picks have given out.
pub record InUse : Type 0 where
  pub selector : Selector
  pub dones : List Done

abbrev pub fresh_done : Bytes → Done
fresh_done key = record { key = key; has_run = false }

abbrev pub after_pick : List Done → PickResult × Selector → InUse
after_pick ds (refused e, s) = record { selector = s; dones = ds }
after_pick ds (picked key, s) = record { selector = s; dones = fresh_done key ∷ ds }
after_pick ds (waits, s) = record { selector = s; dones = ds }

-- What a call must keep: the counts are exact, and a client lane is at its cap at most.
pub record IsCounted (cap : ℕ) (w : InUse) : Type 0 where
  pub cap_kept : w.selector.max_in_flight ≡ cap
  pub exact : (k : Bytes) → in_flight k w.selector.inflight ≡ pending_dones k w.dones
  pub capped :
      (k : Bytes)
      → k ≢ []
      → w.selector.max_in_flight ≢ 0
      → in_flight k w.selector.inflight ≤ w.selector.max_in_flight

-- A call that leaves the counts and the cap as they are.
pub IsCounted-same :
    {cap : ℕ} (w : InUse) (s : Selector)
    → s.inflight ≡ w.selector.inflight
    → s.max_in_flight ≡ w.selector.max_in_flight
    → IsCounted cap w
    → IsCounted cap (record { selector = s; dones = w.dones })
IsCounted-same w s e f c = record {
  cap_kept = f ∙ c.cap_kept;
  exact = λ k. rw e (c.exact k);
  capped = λ k named capped. rw (e, f) (c.capped k named (λ z. capped (f ∙ z)));
}

pub pending_dones-fresh :
    (key k : Bytes) (ds : List Done)
    → pending_dones k (fresh_done key ∷ ds)
      ≡ (if bytes_eq key k then pending_dones k ds + 1 else pending_dones k ds)
unfolding pending_dones
pending_dones-fresh key k ds = ground arith

pub acquire_locked-same :
    (v : PoolAnswers) (opens : Bool) (s : Selector)
    → ((acquire_locked v opens s).1.inflight ≡ s.inflight)
      × ((acquire_locked v opens s).1.max_in_flight ≡ s.max_in_flight)
unfolding acquire_locked
acquire_locked-same v opens s =
    if_ind
      (λ (p : Result PickError LanedStore × Selector).
        (p.1.inflight ≡ s.inflight) × (p.1.max_in_flight ≡ s.max_in_flight))
      (not s.opened && not opens) (λ _. (refl, refl)) (λ _. taken (acquire v s.pool))
  where
    taken :
        (r : Result AcquireError (LanedStore × AcquireReason) × LanePool)
        → ((take_acquired (record s { opened = true }) r).1.inflight ≡ s.inflight)
          × ((take_acquired (record s { opened = true }) r).1.max_in_flight ≡ s.max_in_flight)
    taken (err e, p) = (refl, refl)
    taken (ok (store, reason), p) = (refl, refl)
