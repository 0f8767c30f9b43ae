-- ===== src/Seq/Selector/Rotation.antt =====
-- A lane that is rotated away is out of the pool for the process, and the lane in use is none that is out.
use housegate.Base.{
  ◌≡◌, refl, ap, Bool, true, false, not, ◌&&◌, ◌||◌, Option, none, some, List, [], Result, ok, err,
  if_ind, ◌⊎◌, inl, inr, Bool-cases, Bytes, bytes_eq, bytes_eq→eq, bytes_eq_refl, ltb, ◌==◌,
}
use housegate.Seq.Lane.{LanedStore}
use housegate.Seq.Pool.{
  LanePool, PoolAnswers, AcquireReason, AcquireError, is_there, has_lane, acquire,
}
use housegate.Seq.Pool.Choice.{IsOut}
use housegate.Seq.Pool.Taking.{Acquires, acquire-Acquires}
use housegate.Seq.Selector.{
  Selector, PickError, PickResult, refused, picked, waits, selector_closed, in_flight, admit_key,
  pick_store, pick_current, acquire_locked, take_acquired, pick,
}

-- The lanes of `gone` are out, and the lane in use is there and none of them.
abbrev pub IsApart : List Bytes → LanedStore → Type 0
IsApart gone store = (has_lane store.lane gone ≡ false) × (is_there store.file.visible ≡ true)

abbrev pub CurrentOk : List Bytes → Option LanedStore → Type 0
CurrentOk gone none = Unit
CurrentOk gone (some store) = IsApart gone store

pub record IsRotated (gone : List Bytes) (s : Selector) : Type 0 where
  pub out : (j : Bytes) → has_lane j gone ≡ true → IsOut s.pool j
  pub current : CurrentOk gone s.current

pub has_lane-apart :
    (gone : List Bytes) (j l : Bytes)
    → has_lane j gone ≡ true
    → has_lane l gone ≡ false
    → bytes_eq l j ≡ false
has_lane-apart gone j l h free = elim (Bool-cases (bytes_eq l j)) [
  | inl e ↦ let same = ap (λ k. has_lane k gone) (bytes_eq→eq l j e) in cc
  | inr e ↦ e
]

has_lane-free :
    (gone : List Bytes) (l : Bytes)
    → ((j : Bytes) → has_lane j gone ≡ true → bytes_eq l j ≡ false)
    → has_lane l gone ≡ false
has_lane-free gone l h = elim (Bool-cases (has_lane l gone)) [
  | inl e ↦ let other = h l e in let self = bytes_eq_refl l in cc
  | inr e ↦ e
]

-- `pick`: what it gives is the legacy lane or the lane in use afterwards.
abbrev pub GivesCurrent : PickResult × Selector → Type 0
GivesCurrent (refused e, s) = Unit
GivesCurrent (waits, s) = Unit
GivesCurrent (picked key, s) =
    (key ≡ []) ⊎ ((store : LanedStore) × (s.current ≡ some store) × (store.lane ≡ key))

abbrev pub Picks : List Bytes → PickResult × Selector → Type 0
Picks gone p = IsRotated gone p.1 × GivesCurrent p

module _ (gone : List Bytes) where
  admit_key-Picks :
      (is_cancelled : Bool) (key : Bytes) (s : Selector)
      → IsRotated gone s
      → (key ≡ []) ⊎ ((store : LanedStore) × (s.current ≡ some store) × (store.lane ≡ key))
      → Picks gone (admit_key is_cancelled key s)
  unfolding admit_key
  admit_key-Picks is_cancelled key s r mine =
      if_ind (Picks gone)
        (bytes_eq key [] || s.max_in_flight == 0 || ltb (in_flight key s.inflight) s.max_in_flight)
        (λ _. (record { out = r.out; current = r.current }, mine))
        (λ _. if_ind (Picks gone) is_cancelled {y = (waits, s)} (λ _. (r, tt)) (λ _. (r, tt)))

  abbrev Takes : Result PickError LanedStore × Selector → Type 0
  Takes (err e, s) = IsRotated gone s
  Takes (ok store, s) = IsRotated gone s × (s.current ≡ some store)

  take_acquired-Takes :
      (s : Selector) (r : Result AcquireError (LanedStore × AcquireReason) × LanePool)
      → IsRotated gone s
      → Acquires s.pool r
      → Takes (take_acquired (record s { opened = true }) r)
  take_acquired-Takes s (err e, p) h a = record {
    out = λ j g. a.1 j (h.out j g);
    current = h.current;
  }
  take_acquired-Takes s (ok (store, why), p) h a = (
    record {
      out = λ j g. a.1 j (h.out j g);
      current = (has_lane-free gone store.lane (λ j g. a.0.0 j (h.out j g)), a.0.1);
    },
    refl,
  )

  acquire_locked-Takes :
      (v : PoolAnswers) (opens : Bool) (s : Selector)
      → IsRotated gone s
      → Takes (acquire_locked v opens s)
  unfolding acquire_locked
  acquire_locked-Takes v opens s h =
      if_ind Takes (not s.opened && not opens) (λ _. h)
        (λ _. take_acquired-Takes s (acquire v s.pool) h (acquire-Acquires v s.pool))

  pick_store-Picks :
      (is_cancelled : Bool) (r : Result PickError LanedStore × Selector)
      → Takes r
      → Picks gone (pick_store is_cancelled r)
  pick_store-Picks is_cancelled (err e, s) h = (h, tt)
  pick_store-Picks is_cancelled (ok store, s) h =
      admit_key-Picks is_cancelled store.lane s h.0 (inr (store, h.1, refl))

  pick_current-Picks :
      (v : PoolAnswers) (opens is_cancelled : Bool) (o : Option LanedStore) (s : Selector)
      → s.current ≡ o
      → IsRotated gone s
      → Picks gone (pick_current v opens is_cancelled o s)
  pick_current-Picks v opens is_cancelled none s e h =
      pick_store-Picks is_cancelled (acquire_locked v opens s) (acquire_locked-Takes v opens s h)
  pick_current-Picks v opens is_cancelled (some store) s e h =
      admit_key-Picks is_cancelled store.lane s h (inr (store, e, refl))

  pub pick-Picks :
      (v : PoolAnswers) (opens lanes_enabled is_cancelled : Bool) (s : Selector)
      → IsRotated gone s
      → Picks gone (pick v opens lanes_enabled is_cancelled s)
  unfolding pick
  pick-Picks v opens lanes_enabled is_cancelled s h =
      if_ind (Picks gone) s.closed {x = (refused selector_closed, s)} (λ _. (h, tt))
        (λ _.
          if_ind (Picks gone) (s.is_auto && lanes_enabled && not s.legacy_pinned)
            (λ _. pick_current-Picks v opens is_cancelled s.current s refl h)
            (λ _. admit_key-Picks is_cancelled [] s h (inl refl)))
