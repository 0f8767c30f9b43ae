-- ===== src/Seq/Lane/History.antt =====
-- Whole lives of a client lane: it is minted, its methods are called with any write failures, its
-- process ends and another one acquires it, and crashes undo renames.
use mathlib.Core.List.{Memᴰ}
use housegate.Base.{
  ℕ, ◌<◌, ◌≡◌, refl, sym, ◌∙◌, subst, Bool, true, Option, none, some, List, [], ◌∷◌, arith, ok, inl,
  inr, All, NotIn, without, Bytes, bytes_eq, bytes_eq_refl, Option-cases,
}
use housegate.Durable.{Faults, File, candidates, write_durable, write_durable-All_new}
use housegate.Seq.FreeList.{nil-IsFreeList, ascending_below_first, ascending_below_complete}
use housegate.Seq.Counter.{u64_mod}
use housegate.Seq.Counter.History.{settled, no_file}
use housegate.Seq.Lane.{
  LaneFile, LaneText, undecodable, trailing_data, document, LaneError, LanedStore, read_lane_file,
  reserve, reserve_supplied, release, abandon, close, retire, mint_store, store_of, first_state,
}
use housegate.Seq.Lane.Sound.{persist_ok, persist_failed, IsGood, TextOk, IsSound}
use housegate.Seq.Lane.Taking.{handed, reserve-IsSound, reserve-fresh, reserve_supplied-IsSound}
use housegate.Seq.Lane.Giving.{release-IsSound, abandon-IsSound, close-IsSound, retire-IsSound}

pub record World : Type 0 where
  pub store : LanedStore
  pub held : List ℕ

abbrev pub supplied : Option LaneError → ℕ → List ℕ → List ℕ
supplied none seq held = seq ∷ held
supplied (some e) seq held = held

pub data Step (lane : Bytes) (w : World) : World → Type 0 where
  reserves :
      (f : Faults)
      → Step lane w
          (record { store = (reserve f w.store).1; held = handed (reserve f w.store).0 w.held })
  supplies :
      (f : Faults) (seq : ℕ)
      → seq < u64_mod
      → Step lane w (record {
        store = (reserve_supplied f w.store seq).1;
        held = supplied (reserve_supplied f w.store seq).0 seq w.held;
      })
  releases :
      (f : Faults) (seq : ℕ)
      → Step lane w (record { store = (release f w.store seq).1; held = without seq w.held })
  abandons :
      (f : Faults) (unlocks : Bool)
      → Step lane w (record w { store = (abandon f unlocks w.store).1 })
  closes : (unlocks : Bool) → Step lane w (record w { store = (close unlocks w.store).1 })
  retires : Step lane w (record w { store = retire w.store })
  -- the process ends, and one that finds the lane unlocked opens it
  reopens :
      (d : LaneFile)
      → read_lane_file true lane w.store.file.visible ≡ ok d
      → Step lane w (record w { store = store_of lane d w.store.file })
  -- the machine stops, the file comes back with any content that it may have, and is opened
  crashes :
      (o : Option LaneText) (d : LaneFile)
      → Memᴰ o (candidates w.store.file)
      → read_lane_file true lane o ≡ ok d
      → Step lane w (record w { store = store_of lane d (settled o) })

-- From a lane that was minted without an error on a name that no file had.
pub data Reach (lane : Bytes) : World → Type 0 where
  minted :
      (f : Faults)
      → (mint_store f lane no_file).0 ≡ none
      → Reach lane (record { store = (mint_store f lane no_file).1; held = [] })
  next : {u v : World} → Reach lane u → Step lane u v → Reach lane v

read-IsGood :
    (lane : Bytes) (held : List ℕ) (o : Option LaneText) (d : LaneFile)
    → TextOk lane held o
    → read_lane_file true lane o ≡ ok d
    → IsGood lane held d
unfolding read_lane_file
read-IsGood lane held none d h e = absurd h
read-IsGood lane held (some undecodable) d h e = absurd h
read-IsGood lane held (some trailing_data) d h e = absurd h
read-IsGood lane held (some (document x)) d h e =
    let same : x ≡ d = ground arith in subst (IsGood lane held) same h

good-reads :
    (lane : Bytes) (held : List ℕ) (o : Option LaneText)
    → TextOk lane held o
    → (d : LaneFile) × (read_lane_file true lane o ≡ ok d)
unfolding read_lane_file
good-reads lane held none h = absurd h
good-reads lane held (some undecodable) h = absurd h
good-reads lane held (some trailing_data) h = absurd h
good-reads lane held (some (document x)) h =
    let named : bytes_eq x.lane lane ≡ true = rw h.right_lane (bytes_eq_refl lane) in
    let ascends =
      ascending_below_first x.next x.free
      ∙ ascending_below_complete x.next 0 x.free h.free_list.ascends h.free_list.below in
    (x, ground (arith, h.right_version, h.positive, h.free_list.short))

lookup-All {ℓ κ} : {A : Type ℓ} (P : A → Type κ) {x : A} {xs : List A} → Memᴰ x xs → All P xs → P x
lookup-All P (Memᴰ.head e) h = subst P (sym e) h.0
lookup-All P (Memᴰ.tail m) h = lookup-All P m h.1

first-IsGood : (lane : Bytes) → IsGood lane [] (first_state lane)
first-IsGood lane = record {
  right_version = refl;
  right_lane = refl;
  positive = omega arith;
  fits = omega arith;
  free_list = nil-IsFreeList 1;
  free_apart = tt;
  held_below = tt;
}

mint_store-IsSound :
    (f : Faults) (lane : Bytes) (file : File LaneText)
    → (mint_store f lane file).0 ≡ none
    → IsSound lane [] (mint_store f lane file).1
unfolding mint_store
mint_store-IsSound f lane file h =
    let d = first_state lane in
    let s = store_of lane d file in
    elim (Option-cases (write_durable f file (document d)).1) [
      | inl e ↦ rw (persist_ok f s d e) (record {
        texts = write_durable-All_new (TextOk lane []) f file (document d) e (first-IsGood lane);
        state = first-IsGood lane;
      })
      | inr (w, e) ↦ cc (rw (persist_failed f s d e) at h)
    ]

Step-IsSound :
    (lane : Bytes) {u v : World}
    → Step lane u v
    → IsSound lane u.held u.store
    → IsSound lane v.held v.store
Step-IsSound lane {u} (reserves f) s = reserve-IsSound f lane u.held u.store s
Step-IsSound lane {u} (supplies f seq fits) s =
    elim (reserve_supplied-IsSound f lane u.held u.store s seq fits) [
      | inl (e, h, _) ↦ rw e h
      | inr (x, e, h) ↦ rw e h
    ]
Step-IsSound lane {u} (releases f seq) s = release-IsSound f lane u.held u.store s seq
Step-IsSound lane {u} (abandons f unlocks) s = abandon-IsSound f lane u.held u.store s unlocks
Step-IsSound lane {u} (closes unlocks) s = close-IsSound lane u.held u.store s unlocks
Step-IsSound lane {u} retires s = retire-IsSound lane u.held u.store s
Step-IsSound lane {u} (reopens d e) s = record {
  texts = s.texts;
  state = read-IsGood lane u.held _ d s.texts.0 e;
}
Step-IsSound lane {u} (crashes o d m e) s =
    let good = lookup-All (TextOk lane u.held) m s.texts in
    record { texts = (good, tt); state = read-IsGood lane u.held o d good e }

Reach-IsSound : (lane : Bytes) {w : World} → Reach lane w → IsSound lane w.held w.store
Reach-IsSound lane (minted f e) = mint_store-IsSound f lane no_file e
Reach-IsSound lane (next r st) = Step-IsSound lane st (Reach-IsSound lane r)

module _ (lane : Bytes) {w : World} (r : Reach lane w) where
  -- On a lane that was minted, after any calls with any write failures, takeovers by other processes
  -- and crashes, a seq that `Reserve` returns is not zero and is held by no caller.
  pub lane_reserve_never_repeats :
      (f : Faults) (n : ℕ) → (reserve f w.store).0 ≡ ok n → NotIn n w.held × (0 < n)
  lane_reserve_never_repeats f n = reserve-fresh f lane w.held w.store (Reach-IsSound lane r) n

  -- On a lane that was minted, after any calls with any write failures, takeovers by other processes
  -- and crashes, a seq (a uint64) that `ReserveSupplied` accepts is held by no caller.
  pub lane_reserve_supplied_never_repeats :
      (f : Faults) (seq : ℕ)
      → seq < u64_mod
      → (reserve_supplied f w.store seq).0 ≡ none
      → NotIn seq w.held
  lane_reserve_supplied_never_repeats f seq fits e =
      elim (reserve_supplied-IsSound f lane w.held w.store (Reach-IsSound lane r) seq fits) [
        | inl (_, _, h) ↦ h
        | inr (x, e', _) ↦ cc
      ]

  -- On a lane that was minted, after any calls with any write failures, takeovers by other processes
  -- and crashes: whatever a crash then leaves of the lane's file, a process that can read it
  -- accepts it, and every held seq is below the `next` that it reads.
  pub lane_recovery :
      (o : Option LaneText)
      → Memᴰ o (candidates w.store.file)
      → (d : LaneFile) × (read_lane_file true lane o ≡ ok d) × All (λ h. h < d.next) w.held
  lane_recovery o m =
      let good = lookup-All (TextOk lane w.held) m (Reach-IsSound lane r).texts in
      let (d, e) = good-reads lane w.held o good in
      (d, e, (read-IsGood lane w.held o d good e).held_below)
