-- ===== src/Seq/Selector/History.antt =====
-- Histories of a selector: picks and done functions, calls on the lane in use, rotations, the end, and
-- what other processes do to the directory.
use housegate.Base.{
  ℕ, ◌+◌, ◌%◌, ltb, leb, ◌==◌, ◌≡◌, refl, ap, ◌∙◌, subst, Bool, true, false, ◌||◌, Option, none,
  some, List, [], ◌∷◌, ◌++◌, Result, arith, if_ind, if◌then◌else◌, inl, inr, Bool-cases, Bytes,
  bytes_eq, bytes_eq→eq, bytes_eq_refl,
}
use housegate.Durable.{Faults}
use housegate.Seq.Lane.{
  LaneFile, document, LaneError, LanedStore, persist, reserve, reserve_from, reserve_supplied,
  release, abandon, abandon_persisted,
}
use housegate.Seq.FreeList.{search, found_at}
use housegate.Seq.Counter.{u64_mod, max_u64}
use housegate.Seq.Pool.{
  Entry, LanePool, PoolAnswers, is_there, file_of, is_taken, has_lane, exclude,
}
use housegate.Seq.Pool.Choice.{IsOut, file_of-put_file, is_taken-put_file}
use housegate.Seq.Pool.Taking.{put_file-IsOut, persist-there, persist-lane, persist_ok-visible}
use housegate.Seq.Selector.{
  Selector, Done, pick, run_done, write_back, rotate, rotate_current, give_up, close, pin_legacy,
}
use housegate.Seq.Selector.Counts.{InUse, after_pick}
use housegate.Seq.Selector.Rotation.{IsRotated, CurrentOk, has_lane-apart}

-- How a call on a lane ends: the same lane, with its file there.
abbrev pub Stays : LanedStore → LanedStore → Type 0
Stays store after = (after.lane ≡ store.lane) × (is_there after.file.visible ≡ true)

persist-Stays :
    (f : Faults) (store : LanedStore) (st : LaneFile)
    → is_there store.file.visible ≡ true
    → Stays store (persist f store st).1
persist-Stays f store st h = (persist-lane f store st, persist-there f store st h)

-- `Abandon`: without an error the file says that the lane is abandoned.
abbrev Ends : LanedStore → Option LaneError × LanedStore → Type 0
Ends store r =
    Stays store r.1
    × (r.0 ≡ none → (d : LaneFile) × (r.1.file.visible ≡ some (document d)) × (d.abandoned ≡ true))

abandon_persisted-Ends :
    (unlocks : Bool) (store : LanedStore) (r : Option LaneError × LanedStore)
    → Ends store r
    → Ends store (abandon_persisted unlocks r)
abandon_persisted-Ends unlocks store (some e, after) h = (h.0, λ z. cc)
abandon_persisted-Ends unlocks store (none, after) h = (h.0, λ z. h.1 refl)

abandon-Ends :
    (f : Faults) (unlocks : Bool) (store : LanedStore)
    → is_there store.file.visible ≡ true
    → Ends store (abandon f unlocks store)
unfolding abandon
abandon-Ends f unlocks store h =
    let st = record store.state { abandoned = true } in
    if_ind (Ends store) store.closed (λ _. ((refl, h), λ z. cc))
      (λ _.
        abandon_persisted-Ends unlocks store (persist f store st)
          (persist-Stays f store st h, λ z. (st, persist_ok-visible f store st z, refl)))

abbrev pub gone_after : Bytes → Option LanedStore → List Bytes → List Bytes
gone_after lane none gone = gone
gone_after lane (some store) gone = if bytes_eq store.lane lane then store.lane ∷ gone else gone

IsOut-exclude : (p : LanePool) (l j : Bytes) → IsOut p j → IsOut (exclude l p) j
unfolding exclude has_lane
IsOut-exclude p l j (taken, inl e) = (taken, inl (ground (arith, e)))
IsOut-exclude p l j (taken, inr d) = (taken, inr d)

module _ (gone : List Bytes) (s : Selector) (store : LanedStore) (r : IsRotated gone s)
    (apart : has_lane store.lane gone ≡ false) where
  -- The lanes that were out stay out of a pool in which another lane's file is written.
  pub written-IsOut :
      (after : LanedStore)
      → after.lane ≡ store.lane
      → (j : Bytes) → has_lane j gone ≡ true
      → IsOut (write_back after s).pool j
  written-IsOut after same j g =
      put_file-IsOut s.pool j after.lane after.file
        (has_lane-apart gone j after.lane g (ap (λ l. has_lane l gone) same ∙ apart)) (r.out j g)

  either :
      (P : Bytes → Type 0)
      → P store.lane
      → ((j : Bytes) → has_lane j gone ≡ true → P j)
      → (j : Bytes) → has_lane j (store.lane ∷ gone) ≡ true
      → P j
  unfolding has_lane
  either P mine old j g = elim (Bool-cases (bytes_eq store.lane j)) [
    | inl e ↦ subst P (bytes_eq→eq store.lane j e) mine
    | inr e ↦ old j (ground (arith, e, g))
  ]

  module _ (after : LanedStore) (same : after.lane ≡ store.lane) where
    self : bytes_eq after.lane store.lane ≡ true
    self = ap (λ l. bytes_eq l store.lane) same ∙ bytes_eq_refl store.lane

    still_taken :
        is_there after.file.visible ≡ true
        → is_taken store.lane (write_back after s).pool.dir ≡ true
    still_taken there =
        is_taken-put_file store.lane after.lane after.file s.pool.dir there ∙ ground (arith, self)

    abandoned-IsOut :
        is_there after.file.visible ≡ true
        → (d : LaneFile) × (after.file.visible ≡ some (document d)) × (d.abandoned ≡ true)
        → IsOut (write_back after s).pool store.lane
    abandoned-IsOut there (d, shown, over) =
        let read : file_of store.lane (write_back after s).pool.dir ≡ after.file =
          file_of-put_file store.lane after.lane after.file s.pool.dir ∙ ground (arith, self) in
        (still_taken there, inr (d, ap (λ g. g.visible) read ∙ shown, over))

    excluded-IsOut :
        is_there after.file.visible ≡ true
        → IsOut (exclude after.lane (write_back after s).pool) store.lane
    unfolding exclude has_lane
    excluded-IsOut there = (still_taken there, inl (ground (arith, self)))

  give_up-IsRotated :
      (unlocks : Bool) (a : Option LaneError × LanedStore)
      → Ends store a
      → IsRotated
          (store.lane ∷ gone)
          (give_up unlocks (record s { current = none; rotated = true }) a).2
  give_up-IsRotated unlocks (none, after) ends = record {
    out =
        either (IsOut (write_back after s).pool)
          (abandoned-IsOut after ends.0.0 ends.0.1 (ends.1 refl)) (written-IsOut after ends.0.0);
    current = tt;
  }
  give_up-IsRotated unlocks (some e, after) ends = record {
    out =
        either (IsOut (exclude after.lane (write_back after s).pool))
          (excluded-IsOut after ends.0.0 ends.0.1)
          (λ j g.
            IsOut-exclude (write_back after s).pool after.lane j
              (written-IsOut after ends.0.0 j g));
    current = tt;
  }

pub rotate-IsRotated :
    (f : Faults) (unlocks : Bool) (lane : Bytes) (gone : List Bytes) (s : Selector)
    → IsRotated gone s
    → IsRotated (gone_after lane s.current gone) (rotate f unlocks lane s).2
unfolding rotate
rotate-IsRotated f unlocks lane gone s r = by s.current refl r.current
  where
    by :
        (o : Option LanedStore)
        → s.current ≡ o
        → CurrentOk gone o
        → IsRotated (gone_after lane o gone) (rotate_current f unlocks lane o s).2
    by none e ok' = r
    by (some store) e apart = elim (Bool-cases (bytes_eq store.lane lane)) [
      | inl at ↦ rw at (
          give_up-IsRotated gone s store r apart.0 unlocks (abandon f unlocks store)
            (abandon-Ends f unlocks store apart.1))
      | inr other ↦ rw other r
    ]

-- A call on the lane in use.
pub data LaneCall (store : LanedStore) : LanedStore → Type 0 where
  reserves : (f : Faults) → LaneCall store (reserve f store).1
  supplies : (f : Faults) (seq : ℕ) → LaneCall store (reserve_supplied f store seq).1
  releases : (f : Faults) (seq : ℕ) → LaneCall store (release f store seq).1

reserve_from-Stays :
    (f : Faults) (store : LanedStore) (free : List ℕ)
    → is_there store.file.visible ≡ true
    → Stays store (reserve_from f store free).1
unfolding reserve_from
reserve_from-Stays f store (seq ∷ rest) h =
    persist-Stays f store (record store.state { free = rest }) h
reserve_from-Stays f store [] h =
    if_ind (λ (r : Result LaneError ℕ × LanedStore). Stays store r.1) (store.state.next == max_u64)
      (λ _. (refl, h))
      (λ _.
        persist-Stays f store (record store.state { next = (store.state.next + 1) % u64_mod }) h)

pub LaneCall-Stays :
    {store after : LanedStore}
    → LaneCall store after
    → is_there store.file.visible ≡ true
    → Stays store after
unfolding reserve reserve_supplied release
LaneCall-Stays {store} (reserves f) h =
    if_ind (λ (r : Result LaneError ℕ × LanedStore). Stays store r.1) store.closed (λ _. (refl, h))
      (λ _. reserve_from-Stays f store store.state.free h)
LaneCall-Stays {store} (supplies f seq) h =
    if_ind (λ (r : Option LaneError × LanedStore). Stays store r.1) store.closed (λ _. (refl, h))
      (λ _.
        if_ind (λ (r : Option LaneError × LanedStore). Stays store r.1) (seq == max_u64)
          (λ _. (refl, h))
          (λ _.
            if_ind (λ (r : Option LaneError × LanedStore). Stays store r.1)
              (ltb seq store.state.next) (λ _. (refl, h))
              (λ _. persist-Stays f store (record store.state { next = (seq + 1) % u64_mod }) h)))
LaneCall-Stays {store} (releases f seq) h =
    if_ind (λ (r : Result LaneError Bool × LanedStore). Stays store r.1) store.closed
      (λ _. (refl, h))
      (λ _.
        if_ind (λ (r : Result LaneError Bool × LanedStore). Stays store r.1)
          (seq == 0 || leb store.state.next seq) (λ _. (refl, h))
          (λ _.
            if_ind (λ (r : Result LaneError Bool × LanedStore). Stays store r.1)
              (found_at seq (search seq store.state.free) store.state.free) (λ _. (refl, h))
              (λ _. persist-Stays f store _ h)))

-- What other processes do to the directory: they leave every file there, and the abandoned ones as they
-- are. That is how this code treats them; the lane in use is locked.
pub record Spares (before after : List Entry) : Type 0 where
  pub files : (j : Bytes) → is_taken j before ≡ true → is_taken j after ≡ true
  pub abandoned :
      (j : Bytes) (d : LaneFile)
      → (file_of j before).visible ≡ some (document d)
      → d.abandoned ≡ true
      → (file_of j after).visible ≡ some (document d)

abbrev pub in_use : Selector → LanedStore → Selector
in_use s store = write_back store (record s { current = some store })

-- `gone` is the lanes that have been rotated away.
pub data Step (gone : List Bytes) (w : InUse) : List Bytes → InUse → Type 0 where
  picks :
      (v : PoolAnswers) (opens lanes_enabled is_cancelled : Bool)
      → Step gone w gone (after_pick w.dones (pick v opens lanes_enabled is_cancelled w.selector))
  runs :
      (before after : List Done) (d : Done)
      → w.dones ≡ before ++ d ∷ after
      → Step gone w gone (record {
        selector = (run_done d w.selector).1;
        dones = before ++ (run_done d w.selector).0 ∷ after;
      })
  uses :
      (store after : LanedStore)
      → w.selector.current ≡ some store
      → LaneCall store after
      → Step gone w gone (record w { selector = in_use w.selector after })
  rotates :
      (f : Faults) (unlocks : Bool) (lane : Bytes)
      → Step gone w
          (gone_after lane w.selector.current gone)
          (record w { selector = (rotate f unlocks lane w.selector).2 })
  pins :
      (has_reason : Bool)
      → Step gone w gone (record w { selector = pin_legacy has_reason w.selector })
  closes :
      (unlocks : Bool) → Step gone w gone (record w { selector = (close unlocks w.selector).1 })
  others :
      (dir : List Entry)
      → Spares w.selector.pool.dir dir
      → Step gone w gone (record w {
        selector = record w.selector { pool = record w.selector.pool { dir = dir } };
      })

pub data Reach (start : Selector) : List Bytes → InUse → Type 0 where
  here : Reach start [] (record { selector = start; dones = [] })
  next :
      {gone later : List Bytes} {w after : InUse}
      → Reach start gone w
      → Step gone w later after
      → Reach start later after
