-- ===== src/Seq/Pool/Taking.antt =====
-- `Acquire` never takes a lane that is out of the pool, and leaves it out.
use housegate.Base.{
  ℕ, zero, suc, ◌≡◌, refl, sym, ap, ◌∙◌, true, false, not, Option, none, some, List, Result, ok,
  err, arith, if_ind, Option-cases, if◌then◌else◌, ◌⊎◌, inl, inr, Bool-cases, Bytes, bytes_eq,
  bytes_eq→eq,
}
use housegate.Durable.{write_durable-All_new, Faults, File, write_durable, write_durable-cases}
use housegate.Seq.Counter.{LockOutcome, granted, held_elsewhere, broken}
use housegate.Seq.Lane.{
  LaneFile, LaneText, document, LaneError, write_failed, LanedStore, store_of, mint_store, persist,
  first_state,
}
use housegate.Seq.Lane.Sound.{persist_failed}
use housegate.Seq.Pool.{
  LanePool, PoolAnswers, AcquireReason, AcquireError, is_there, file_of, put_file, is_taken,
  has_lane, found_lanes, without_excluded, sort_lanes, try_lanes, encode_hex, minted, mint_locked,
  mint_drawn, mint_from, mint, mint_reason, with_reason, acquired, acquire,
}
use housegate.Seq.Pool.Choice.{
  IsOut, IsChosen, ChosenIf, try_lanes-ChosenIf, without_excluded-All, sort_lanes-All,
  file_of-put_file, is_taken-other,
}

-- A write of another lane's file keeps a lane out.
pub put_file-IsOut :
    (p : LanePool) (j l : Bytes) (f : File LaneText)
    → bytes_eq l j ≡ false
    → IsOut p j
    → IsOut (record p { dir = put_file l f p.dir }) j
put_file-IsOut p j l f other (taken, why) = (is_taken-other j l f p.dir other ∙ taken, still why)
  where
    still :
        (has_lane j p.excluded ≡ true)
          ⊎ ((d : LaneFile) × ((file_of j p.dir).visible ≡ some (document d))
              × (d.abandoned ≡ true))
        → (has_lane j p.excluded ≡ true)
          ⊎ ((d : LaneFile) × ((file_of j (put_file l f p.dir)).visible ≡ some (document d))
              × (d.abandoned ≡ true))
    still (inl e) = inl e
    still (inr (d, e, a)) =
        let same : file_of j (put_file l f p.dir) ≡ file_of j p.dir =
          file_of-put_file j l f p.dir ∙ ground (arith, other) in
        inr (d, ap (λ g. g.visible) same ∙ e, a)

-- A lane that is out is there, so it is none that is not.
apart : (p : LanePool) (j l : Bytes) → IsOut p j → is_taken l p.dir ≡ false → bytes_eq l j ≡ false
apart p j l out free = elim (Bool-cases (bytes_eq l j)) [
  | inl e ↦ let same = ap (λ k. is_taken k p.dir) (bytes_eq→eq l j e) in let taken = out.0 in cc
  | inr e ↦ e
]

write_durable-there :
    (f : Faults) (g : File LaneText) (t : LaneText)
    → is_there g.visible ≡ true
    → is_there (write_durable f g t).0.visible ≡ true
write_durable-there f g t h = elim (write_durable-cases f g t) [
  | inl e ↦ rw e h
  | inr (inl e) ↦ rw e refl
  | inr (inr e) ↦ rw e refl
]

pub persist-there :
    (f : Faults) (s : LanedStore) (st : LaneFile)
    → is_there s.file.visible ≡ true
    → is_there (persist f s st).1.file.visible ≡ true
unfolding persist
persist-there f s st h = elim (Option-cases (write_durable f s.file (document st)).1) [
  | inl e ↦ rw (e, persist) (write_durable-there f s.file (document st) h)
  | inr (w, e) ↦ rw (e, persist) (write_durable-there f s.file (document st) h)
]

pub persist-lane : (f : Faults) (s : LanedStore) (st : LaneFile) → (persist f s st).1.lane ≡ s.lane
unfolding persist
persist-lane f s st = elim (Option-cases (write_durable f s.file (document st)).1) [
  | inl e ↦ rw (e, persist) refl
  | inr (w, e) ↦ rw (e, persist) refl
]

pub persist_ok-visible :
    (f : Faults) (s : LanedStore) (st : LaneFile)
    → (persist f s st).0 ≡ none
    → (persist f s st).1.file.visible ≡ some (document st)
unfolding persist
persist_ok-visible f s st h = elim (Option-cases (write_durable f s.file (document st)).1) [
  | inl e ↦
      rw (e, persist)
        (write_durable-All_new (λ o. o ≡ some (document st)) f s.file (document st) e refl).0
  | inr (w, e) ↦
      let failed : (persist f s st).0 ≡ some (write_failed w) =
        ap (λ p. p.0) (persist_failed f s st e) in
      cc
]

-- What a mint leaves: a lane that nobody had, with its file there, or an error; a lane that is out
-- stays out.
abbrev IsNew : LanePool → Result AcquireError LanedStore → Type 0
IsNew p (err e) = Unit
IsNew p (ok s) = (is_taken s.lane p.dir ≡ false) × (is_there s.file.visible ≡ true)

abbrev Mints : LanePool → Result AcquireError LanedStore × LanePool → Type 0
Mints p r = IsNew p r.0 × ((j : Bytes) → IsOut p j → IsOut r.1 j)

mint_store-there :
    (f : Faults) (l : Bytes) (g : File LaneText)
    → (mint_store f l g).0 ≡ none
    → is_there (mint_store f l g).1.file.visible ≡ true
unfolding mint_store
mint_store-there f l g h =
    rw (persist_ok-visible f (store_of l (first_state l) g) (first_state l) h) refl

minted-Mints :
    (p : LanePool) (r : Option LaneError × LanedStore)
    → is_taken r.1.lane p.dir ≡ false
    → (r.0 ≡ none → is_there r.1.file.visible ≡ true)
    → Mints p (minted p r)
minted-Mints p (some e, s) fresh there =
    (tt, λ j out. put_file-IsOut p j s.lane s.file (apart p j s.lane out fresh) out)
minted-Mints p (none, s) fresh there = (
  (fresh, there refl),
  λ j out. put_file-IsOut p j s.lane s.file (apart p j s.lane out fresh) out,
)

mint_locked-Mints :
    (v : PoolAnswers) (p : LanePool) (i : ℕ) (l : Bytes) (o : LockOutcome)
    (rest : Result AcquireError LanedStore × LanePool)
    → Mints p rest
    → Mints p (mint_locked v p i l o rest)
unfolding mint_store
mint_locked-Mints v p i l held_elsewhere rest h = h
mint_locked-Mints v p i l broken rest h = (tt, λ j out. out)
mint_locked-Mints v p i l granted rest h =
    if_ind (Mints p) (not (v.stats i))
      {y = if is_taken l p.dir then rest else minted p (mint_store v.faults l (file_of l p.dir))}
      (λ _. (tt, λ j out. out))
      (λ _.
        if_ind (Mints p) (is_taken l p.dir) (λ _. h)
          (λ free.
            minted-Mints p (mint_store v.faults l (file_of l p.dir))
              (ap (λ k. is_taken k p.dir)
                  (persist-lane v.faults (store_of l (first_state l) (file_of l p.dir))
                    (first_state l))
                ∙ free)
              (mint_store-there v.faults l (file_of l p.dir))))

mint_from-Mints : (v : PoolAnswers) (p : LanePool) (i left : ℕ) → Mints p (mint_from v p i left)
unfolding mint_from
mint_from-Mints v p i zero = (tt, λ j out. out)
mint_from-Mints v p i (suc left) = by (v.random i) (mint_from-Mints v p (suc i) left)
  where
    by :
        (o : Option Bytes)
        → Mints p (mint_from v p (suc i) left)
        → Mints p (mint_drawn v p i o (mint_from v p (suc i) left))
    by none rest = (tt, λ j out. out)
    by (some bytes) rest = mint_locked-Mints v p i (encode_hex bytes) (v.mint_locks i) _ rest

-- What `Acquire` gives is out for nobody.
abbrev pub IsFree : LanePool → Result AcquireError (LanedStore × AcquireReason) → Type 0
IsFree p (err e) = Unit
IsFree p (ok (s, why)) =
    ((j : Bytes) → IsOut p j → bytes_eq s.lane j ≡ false) × (is_there s.file.visible ≡ true)

abbrev pub Acquires :
    LanePool → Result AcquireError (LanedStore × AcquireReason) × LanePool → Type 0
Acquires p r = IsFree p r.0 × ((j : Bytes) → IsOut p j → IsOut r.1 j)

IsChosen-apart :
    (p : LanePool) (s : LanedStore) (j : Bytes)
    → IsChosen p s
    → IsOut p j
    → bytes_eq s.lane j ≡ false
IsChosen-apart p s j (free, (d, seen, fresh), there) out = elim (Bool-cases (bytes_eq s.lane j)) [
  | inl e ↦
      let at = bytes_eq→eq s.lane j e in
      let listed = ap (λ k. has_lane k p.excluded) at in
      let read = ap (λ k. (file_of k p.dir).visible) at in
      elim out.1 [
        | inl excluded ↦ cc
        | inr (c, shown, gone) ↦
            let same : some (document c) ≡ some (document d) = sym shown ∙ sym read ∙ seen in
            ground (arith, same, gone, fresh)
      ]
  | inr e ↦ e
]

with_reason-Acquires :
    (p : LanePool) (why : AcquireReason) (r : Result AcquireError LanedStore × LanePool)
    → Mints p r
    → Acquires p (with_reason why r)
with_reason-Acquires p why (err e, q) m = (tt, m.1)
with_reason-Acquires p why (ok s, q) m = ((λ j out. apart p j s.lane out m.0.0, m.0.1), m.1)

acquired-Acquires :
    (v : PoolAnswers) (p : LanePool) (found : List Bytes)
    (r : Result AcquireError (Option LanedStore))
    → ChosenIf p r
    → Acquires p (acquired v p found r)
acquired-Acquires v p found (err e) c = (tt, λ j out. out)
acquired-Acquires v p found (ok (some s)) c =
    ((λ j out. IsChosen-apart p s j c out, c.2), λ j out. out)
acquired-Acquires v p found (ok none) c =
    with_reason-Acquires p (mint_reason found) (mint v p) (mint_from-Mints v p 0 8)

pub acquire-Acquires : (v : PoolAnswers) (p : LanePool) → Acquires p (acquire v p)
unfolding acquire
acquire-Acquires v p =
    if_ind (Acquires p) (not v.lists)
      {y = acquired v p (found_lanes p.dir)
        (try_lanes v p.dir (sort_lanes (without_excluded p.excluded (found_lanes p.dir))))}
      (λ _. (tt, λ j out. out))
      (λ _. acquired-Acquires v p (found_lanes p.dir) _ (
        try_lanes-ChosenIf v p _ (
          sort_lanes-All (λ l. has_lane l p.excluded ≡ false) _
            (without_excluded-All p.excluded (found_lanes p.dir)))))
