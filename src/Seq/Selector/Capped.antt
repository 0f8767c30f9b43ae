-- ===== src/Seq/Selector/Capped.antt =====
-- No client lane has more statements in flight than its cap, after any history of a selector.
use housegate.Base.{
  ℕ, ◌≤◌, ◌≡◌, ◌≢◌, refl, sym, ◌∙◌, subst, Bool, true, Option, none, some, List, [], arith, if_ind,
  Bytes, bytes_eq,
}
use housegate.Durable.{Faults}
use housegate.Seq.Lane.{LaneError, LanedStore, abandon}
use housegate.Seq.Pool.{LanePool}
use housegate.Seq.Selector.{
  Selector, rotate, rotate_current, give_up, close, close_current, pin_legacy, new_selector,
  in_flight,
}
use housegate.Seq.Selector.Counts.{InUse, IsCounted, IsCounted-same, pending_dones}
use housegate.Seq.Selector.Counting.{pick-IsCounted, run_done-IsCounted}
use housegate.Seq.Selector.History.{
  Step, picks, runs, uses, rotates, pins, closes, others, Reach, here, next, in_use,
}

-- Calls that leave the counts as they are.
abbrev Same : Selector → Selector → Type 0
Same s t = (t.inflight ≡ s.inflight) × (t.max_in_flight ≡ s.max_in_flight)

rotate-Same :
    (f : Faults) (unlocks : Bool) (lane : Bytes) (s : Selector) → Same s (rotate f unlocks lane s).2
unfolding rotate
rotate-Same f unlocks lane s = by s.current
  where
    given_up :
        (store : LanedStore) (a : Option LaneError × LanedStore)
        → Same s (give_up unlocks (record s { current = none; rotated = true }) a).2
    given_up store (none, after) = (refl, refl)
    given_up store (some e, after) = (refl, refl)

    by : (o : Option LanedStore) → Same s (rotate_current f unlocks lane o s).2
    by none = (refl, refl)
    by (some store) =
        if_ind (λ (r : Option LaneError × Option LaneError × Selector). Same s r.2)
          (bytes_eq store.lane lane) (λ _. given_up store (abandon f unlocks store))
          (λ _. (refl, refl))

close-Same : (unlocks : Bool) (s : Selector) → Same s (close unlocks s).1
unfolding close
close-Same unlocks s = by s.current
  where
    by : (o : Option LanedStore) → Same s (close_current unlocks o (record s { closed = true })).1
    by none = (refl, refl)
    by (some store) = (refl, refl)

Step-IsCounted :
    {cap : ℕ} {gone later : List Bytes} {w after : InUse}
    → Step gone w later after
    → IsCounted cap w
    → IsCounted cap after
unfolding pin_legacy
Step-IsCounted {w = w} (picks v opens lanes_enabled is_cancelled) c =
    pick-IsCounted w.dones v opens lanes_enabled is_cancelled w.selector c
Step-IsCounted {cap} {w = w} (runs before after d e) c =
    run_done-IsCounted w.selector before after d
      (subst (λ ds. IsCounted cap (record { selector = w.selector; dones = ds })) e c)
Step-IsCounted {w = w} (uses store after e call) c =
    IsCounted-same w (in_use w.selector after) refl refl c
Step-IsCounted {w = w} (rotates f unlocks lane) c =
    let same = rotate-Same f unlocks lane w.selector in
    IsCounted-same w (rotate f unlocks lane w.selector).2 same.0 same.1 c
Step-IsCounted {w = w} (pins has_reason) c = IsCounted-same w _ refl refl c
Step-IsCounted {w = w} (closes unlocks) c =
    let same = close-Same unlocks w.selector in
    IsCounted-same w (close unlocks w.selector).1 same.0 same.1 c
Step-IsCounted {w = w} (others dir spares) c = IsCounted-same w _ refl refl c

Reach-IsCounted :
    {cap : ℕ} {start : Selector} {gone : List Bytes} {w : InUse}
    → Reach start gone w
    → IsCounted cap (record { selector = start; dones = [] })
    → IsCounted cap w
Reach-IsCounted here c = c
Reach-IsCounted (next h s) c = Step-IsCounted s (Reach-IsCounted h c)

new_selector-IsCounted :
    (is_auto : Bool) (cap : ℕ) (pool : LanePool)
    → IsCounted cap (record { selector = new_selector is_auto cap pool; dones = [] })
unfolding new_selector in_flight pending_dones
new_selector-IsCounted is_auto cap pool = record {
  cap_kept = refl;
  exact = λ k. refl;
  capped = λ k named some_cap. omega arith;
}

-- After any history of a new selector the count of a lane is the number of its statements whose done
-- function has not run, each counted once however often it runs; and a client lane has at most its cap
-- of them, if there is a cap.
pub lane_is_capped :
    (is_auto : Bool) (cap : ℕ) (pool : LanePool) {gone : List Bytes} {w : InUse}
    → Reach (new_selector is_auto cap pool) gone w
    → (key : Bytes)
    → (in_flight key w.selector.inflight ≡ pending_dones key w.dones)
      × (key ≢ [] → cap ≢ 0 → pending_dones key w.dones ≤ cap)
lane_is_capped is_auto cap pool h key =
    let c = Reach-IsCounted h (new_selector-IsCounted is_auto cap pool) in
    let exact = c.exact key in
    let kept = c.cap_kept in
    (
      exact,
      λ named some_cap.
          let most = c.capped key named (λ z. some_cap (sym kept ∙ z)) in
          omega (arith, exact, kept, most),
    )
