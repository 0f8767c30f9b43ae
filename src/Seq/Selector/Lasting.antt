-- ===== src/Seq/Selector/Lasting.antt =====
-- A lane that is rotated away never returns, after any history of a selector.
use housegate.Base.{
  ℕ, ◌≡◌, ◌≢◌, refl, sym, ap, ◌∙◌, subst, subst⁻¹, Bool, true, false, Option, none, some, List, [],
  if_ind, inl, inr, Bytes,
}
use housegate.Seq.Lane.{LanedStore}
use housegate.Seq.Pool.{Entry, LanePool, PoolAnswers, has_lane}
use housegate.Seq.Pool.Choice.{IsOut}
use housegate.Seq.Selector.{
  Selector, Done, PickResult, refused, picked, waits, pick, run_done, close, close_current,
  pin_legacy, new_selector,
}
use housegate.Seq.Selector.Counts.{InUse, after_pick}
use housegate.Seq.Selector.Rotation.{IsRotated, CurrentOk, IsApart, Picks, pick-Picks}
use housegate.Seq.Selector.History.{
  Step, picks, runs, uses, rotates, pins, closes, others, Reach, here, next, in_use, Spares,
  rotate-IsRotated, LaneCall, LaneCall-Stays, written-IsOut,
}

IsRotated-Selector :
    (gone : List Bytes) (s t : Selector)
    → t.pool ≡ s.pool
    → t.current ≡ s.current
    → IsRotated gone s
    → IsRotated gone t
IsRotated-Selector gone s t e f r = record {
  out = λ j g. subst⁻¹ (λ p. IsOut p j) e (r.out j g);
  current = subst⁻¹ (CurrentOk gone) f r.current;
}

after_pick-selector :
    (ds : List Done) (p : PickResult × Selector) → (after_pick ds p).selector ≡ p.1
after_pick-selector ds (refused e, s) = refl
after_pick-selector ds (picked key, s) = refl
after_pick-selector ds (waits, s) = refl

close-IsRotated :
    (unlocks : Bool) (gone : List Bytes) (s : Selector)
    → IsRotated gone s
    → IsRotated gone (close unlocks s).1
unfolding close
close-IsRotated unlocks gone s r = by s.current r.current
  where
    by :
        (o : Option LanedStore)
        → CurrentOk gone o
        → IsRotated gone (close_current unlocks o (record s { closed = true })).1
    by none h = record { out = r.out; current = r.current }
    by (some store) h = record { out = r.out; current = tt }

uses-IsRotated :
    (gone : List Bytes) (s : Selector) (store after : LanedStore)
    → s.current ≡ some store
    → LaneCall store after
    → IsRotated gone s
    → IsRotated gone (in_use s after)
uses-IsRotated gone s store after e call r =
    let apart : IsApart gone store = subst (CurrentOk gone) e r.current in
    let stays = LaneCall-Stays call apart.1 in
    record {
      out = written-IsOut gone s store r apart.0 after stays.0;
      current = (ap (λ l. has_lane l gone) stays.0 ∙ apart.0, stays.1);
    }

others-IsOut :
    (p : LanePool) (dir : List Entry) (j : Bytes)
    → Spares p.dir dir
    → IsOut p j
    → IsOut (record p { dir = dir }) j
others-IsOut p dir j spares (taken, inl e) = (spares.files j taken, inl e)
others-IsOut p dir j spares (taken, inr (d, shown, over)) =
    (spares.files j taken, inr (d, spares.abandoned j d shown over, over))

Step-IsRotated :
    {gone later : List Bytes} {w after : InUse}
    → Step gone w later after
    → IsRotated gone w.selector
    → IsRotated later after.selector
unfolding run_done pin_legacy
Step-IsRotated {gone} {w = w} (picks v opens lanes_enabled is_cancelled) r =
    let p = pick v opens lanes_enabled is_cancelled w.selector in
    subst⁻¹ (IsRotated gone) (after_pick-selector w.dones p)
      (pick-Picks gone v opens lanes_enabled is_cancelled w.selector r).0
Step-IsRotated {gone} {w = w} (runs before after d e) r =
    if_ind (λ (p : Done × Selector). IsRotated gone p.1) d.has_run (λ _. r)
      (λ _. record { out = r.out; current = r.current })
Step-IsRotated {gone} {w = w} (uses store after e call) r =
    uses-IsRotated gone w.selector store after e call r
Step-IsRotated {gone} {w = w} (rotates f unlocks lane) r =
    rotate-IsRotated f unlocks lane gone w.selector r
Step-IsRotated {gone} {w = w} (pins has_reason) r = record { out = r.out; current = r.current }
Step-IsRotated {gone} {w = w} (closes unlocks) r = close-IsRotated unlocks gone w.selector r
Step-IsRotated {gone} {w = w} (others dir spares) r = record {
  out = λ j g. others-IsOut w.selector.pool dir j spares (r.out j g);
  current = r.current;
}

Reach-IsRotated :
    {start : Selector} {gone : List Bytes} {w : InUse}
    → Reach start gone w
    → IsRotated [] start
    → IsRotated gone w.selector
Reach-IsRotated here r = r
Reach-IsRotated (next h s) r = Step-IsRotated s (Reach-IsRotated h r)

new_selector-IsRotated :
    (is_auto : Bool) (cap : ℕ) (pool : LanePool) → IsRotated [] (new_selector is_auto cap pool)
unfolding new_selector has_lane
new_selector-IsRotated is_auto cap pool = record { out = λ j g. cc; current = tt }

gives_none_gone :
    (gone : List Bytes) (p : PickResult × Selector) (key : Bytes)
    → p.0 ≡ picked key
    → key ≢ []
    → Picks gone p
    → has_lane key gone ≡ false
gives_none_gone gone (refused e, s) key given named h = cc
gives_none_gone gone (waits, s) key given named h = cc
gives_none_gone gone (picked k, s) key given named (r, inl legacy) =
    absurd (named (sym (injected given) ∙ legacy))
  where
    injected : picked k ≡ picked key → k ≡ key
    injected e = cc
gives_none_gone gone (picked k, s) key given named (r, inr (store, at, of_lane)) =
    let apart : IsApart gone store = subst (CurrentOk gone) at r.current in
    ap (λ l. has_lane l gone) (sym (of_lane ∙ injected given)) ∙ apart.0
  where
    injected : picked k ≡ picked key → k ≡ key
    injected e = cc

-- After any history of a new selector, its statements, rotations and failed calls included, and whatever
-- other processes did to the directory as long as they left the files there and the abandoned ones as they
-- were, `pick` never gives a statement a client lane that has been rotated away.
pub rotated_lane_never_returns :
    (is_auto : Bool) (cap : ℕ) (pool : LanePool) {gone : List Bytes} {w : InUse}
    → Reach (new_selector is_auto cap pool) gone w
    → (v : PoolAnswers) (opens lanes_enabled is_cancelled : Bool) (key : Bytes)
    → (pick v opens lanes_enabled is_cancelled w.selector).0 ≡ picked key
    → key ≢ []
    → has_lane key gone ≡ false
rotated_lane_never_returns is_auto cap pool {gone} {w} h v opens lanes_enabled is_cancelled key e
      named =
    gives_none_gone gone (pick v opens lanes_enabled is_cancelled w.selector) key e named (
      pick-Picks gone v opens lanes_enabled is_cancelled w.selector
        (Reach-IsRotated h (new_selector-IsRotated is_auto cap pool)))
