-- ===== src/Seq/Selector/Counting.antt =====
-- Every call of a selector keeps its counts.
use housegate.Base.{
  ℕ, ◌+◌, ◌-◌, ◌≡◌, sym, ◌∙◌, Bool, true, false, not, ◌&&◌, ◌||◌, Option, none, some, List, [], ◌∷◌,
  ◌++◌, Result, ok, err, arith, if_ind, ap, Bool-cases, inl, inr, if◌then◌else◌, ltb, ◌==◌, Bytes,
  bytes_eq, bytes_eq→eq, ltb→lt,
}
use housegate.Seq.Lane.{LanedStore}
use housegate.Seq.Pool.{PoolAnswers}
use housegate.Seq.Selector.{
  Selector, Done, PickError, PickResult, waits, in_flight, put_in_flight, admit_key, pick_store,
  pick_current, acquire_locked, pick, lowered, run_done,
}
use housegate.Seq.Selector.Counts.{
  in_flight-put_in_flight, in_flight-drop_in_flight, pending_dones, pending_dones-append, InUse,
  fresh_done, after_pick, IsCounted, IsCounted-same, pending_dones-fresh, acquire_locked-same,
}

abbrev now : List Done → Selector → InUse
now ds s = record { selector = s; dones = ds }

module _ {cap : ℕ} (ds : List Done) where
  admit_key-IsCounted :
      (is_cancelled : Bool) (key : Bytes) (s : Selector)
      → IsCounted cap (now ds s)
      → IsCounted cap (after_pick ds (admit_key is_cancelled key s))
  unfolding admit_key
  admit_key-IsCounted is_cancelled key s c =
      if_ind (λ (p : PickResult × Selector). IsCounted cap (after_pick ds p))
        (bytes_eq key [] || s.max_in_flight == 0 || ltb (in_flight key s.inflight) s.max_in_flight)
        (λ room. admitted room)
        (λ _.
          if_ind (λ (p : PickResult × Selector). IsCounted cap (after_pick ds p)) is_cancelled
            {y = (waits, s)} (λ _. c) (λ _. c))
    where
      grown : List (Bytes × ℕ)
      grown = put_in_flight key (in_flight key s.inflight + 1) s.inflight

      admitted :
          (bytes_eq key []
              || s.max_in_flight == 0
              || ltb (in_flight key s.inflight) s.max_in_flight)
            ≡ true
          → IsCounted cap
              (record { selector = record s { inflight = grown }; dones = fresh_done key ∷ ds })
      admitted room = record {
        cap_kept = c.cap_kept;
        exact = λ k.
            let read = in_flight-put_in_flight k key (in_flight key s.inflight + 1) s.inflight in
            let given = pending_dones-fresh key k ds in
            let before = c.exact k in
            elim (Bool-cases (bytes_eq key k)) [
              | inl e ↦
                  let same = ap (λ j. in_flight j s.inflight) (bytes_eq→eq key k e) in
                  ground (arith, read, given, e, same, before)
              | inr e ↦ ground (arith, read, given, e, before)
            ];
        capped = λ k named some_cap.
            let read = in_flight-put_in_flight k key (in_flight key s.inflight + 1) s.inflight in
            let before = c.capped k named some_cap in
            elim (Bool-cases (bytes_eq key k)) [
              | inl e ↦
                  let same = ap (λ j. in_flight j s.inflight) (bytes_eq→eq key k e) in
                  let legacy : bytes_eq key [] ≡ true → ⊥ =
                    λ z. named (sym (bytes_eq→eq key k e) ∙ bytes_eq→eq key [] z) in
                  ground (
                    arith,
                    read,
                    e,
                    same,
                    room,
                    legacy,
                    some_cap,
                    ltb→lt (in_flight key s.inflight) s.max_in_flight,
                  )
              | inr e ↦ ground (arith, read, e, before)
            ];
      }

  pick_store-IsCounted :
      (is_cancelled : Bool) (r : Result PickError LanedStore × Selector)
      → IsCounted cap (now ds r.1)
      → IsCounted cap (after_pick ds (pick_store is_cancelled r))
  pick_store-IsCounted is_cancelled (err e, s) c = c
  pick_store-IsCounted is_cancelled (ok store, s) c =
      admit_key-IsCounted is_cancelled store.lane s c

  pick_current-IsCounted :
      (v : PoolAnswers) (opens is_cancelled : Bool) (o : Option LanedStore) (s : Selector)
      → IsCounted cap (now ds s)
      → IsCounted cap (after_pick ds (pick_current v opens is_cancelled o s))
  pick_current-IsCounted v opens is_cancelled (some store) s c =
      admit_key-IsCounted is_cancelled store.lane s c
  pick_current-IsCounted v opens is_cancelled none s c =
      let same = acquire_locked-same v opens s in
      pick_store-IsCounted is_cancelled (acquire_locked v opens s)
        (IsCounted-same (now ds s) (acquire_locked v opens s).1 same.0 same.1 c)

  pub pick-IsCounted :
      (v : PoolAnswers) (opens lanes_enabled is_cancelled : Bool) (s : Selector)
      → IsCounted cap (now ds s)
      → IsCounted cap (after_pick ds (pick v opens lanes_enabled is_cancelled s))
  unfolding pick
  pick-IsCounted v opens lanes_enabled is_cancelled s c =
      if_ind (λ (p : PickResult × Selector). IsCounted cap (after_pick ds p)) s.closed (λ _. c)
        (λ _.
          if_ind (λ (p : PickResult × Selector). IsCounted cap (after_pick ds p))
            (s.is_auto && lanes_enabled && not s.legacy_pinned)
            (λ _. pick_current-IsCounted v opens is_cancelled s.current s c)
            (λ _. admit_key-IsCounted is_cancelled [] s c))

in_flight-lowered :
    (key k : Bytes) (m : List (Bytes × ℕ))
    → in_flight k (lowered key m) ≡ (if bytes_eq key k then in_flight k m - 1 else in_flight k m)
unfolding lowered
in_flight-lowered key k m = elim (Bool-cases (bytes_eq key k)) [
  | inl e ↦
      let same = ap (λ j. in_flight j m) (bytes_eq→eq key k e) in
      ground (
        arith,
        e,
        same,
        in_flight-put_in_flight k key (in_flight key m - 1) m,
        in_flight-drop_in_flight k key m,
        if_ind (λ n. in_flight k n ≡ in_flight key m - 1) (in_flight key m - 1 == 0)
            (λ z. in_flight-drop_in_flight k key m ∙ ground (arith, e, z))
            (λ _. in_flight-put_in_flight k key (in_flight key m - 1) m ∙ ground (arith, e)),
      )
  | inr e ↦
      if_ind (λ n. in_flight k n ≡ (if bytes_eq key k then in_flight k m - 1 else in_flight k m))
        (in_flight key m - 1 == 0) (λ _. in_flight-drop_in_flight k key m ∙ ground (arith, e))
        (λ _. in_flight-put_in_flight k key (in_flight key m - 1) m ∙ ground (arith, e))
]

pending_dones-run :
    (k : Bytes) (d : Done) (before after : List Done)
    → d.has_run ≡ false
    → pending_dones k (before ++ d ∷ after) ≡ (
        if bytes_eq d.key k
        then pending_dones k (before ++ (record d { has_run = true }) ∷ after) + 1
        else pending_dones k (before ++ (record d { has_run = true }) ∷ after))
unfolding pending_dones
pending_dones-run k d before after h =
    let ran = pending_dones-append k before ((record d { has_run = true }) ∷ after) in
    let waiting = pending_dones-append k before (d ∷ after) in ground (arith, ran, waiting, h)

abbrev ran : Done → Done
ran d = record d { has_run = true }

-- A done function that runs, wherever it was given out.
pub run_done-IsCounted :
    {cap : ℕ} (s : Selector) (before after : List Done) (d : Done)
    → IsCounted cap (record { selector = s; dones = before ++ d ∷ after })
    → IsCounted cap
        (record { selector = (run_done d s).1; dones = before ++ (run_done d s).0 ∷ after })
unfolding run_done
run_done-IsCounted {cap} s before after d c =
    if_ind
      (λ (p : Done × Selector).
        IsCounted cap (record { selector = p.1; dones = before ++ p.0 ∷ after }))
      d.has_run (λ _. c) ran_now
  where
    ran_now :
        d.has_run ≡ false
        → IsCounted cap
            (now (before ++ ran d ∷ after) (record s { inflight = lowered d.key s.inflight }))
    ran_now h = record {
      cap_kept = c.cap_kept;
      exact = λ k.
          let read = in_flight-lowered d.key k s.inflight in
          let fewer = pending_dones-run k d before after h in
          let old = c.exact k in ground (arith, read, fewer, old);
      capped = λ k named some_cap.
          let read = in_flight-lowered d.key k s.inflight in
          let old = c.capped k named some_cap in ground (arith, read, old);
    }
