-- ===== src/Seq/Lane/Giving.antt =====
-- The methods of a lane that give seqs back or give the lane up, against its invariant.
use housegate.Base.{
  ℕ, ◌<◌, ◌≡◌, refl, if_ind, ◌||◌, Bool, true, false, Option, none, some, List, arith, Result, leb,
  ◌==◌, inl, inr, Option-cases, Bool-cases, All, All-mono, NotIn, without, without-NotIn, Bytes,
}
use housegate.Durable.{Faults, WriteError, candidates, write_durable, write_durable-All_new}
use housegate.Seq.FreeList.{search, found_at, keep, keep-IsFreeList, keep-All}
use housegate.Seq.Lane.{
  LaneText, undecodable, trailing_data, document, LaneError, write_failed, LanedStore, release,
  abandon, close, retire,
}
use housegate.Seq.Lane.Sound.{
  IsGood, IsSound, persist_ok, persist_failed, persist-IsSound, IsGood-without, TextOk-without,
}

module _ (lane : Bytes) (held : List ℕ) (s : LanedStore) (sound : IsSound lane held s) where
  pub close-IsSound : (unlocks : Bool) → IsSound lane held (close unlocks s).1
  unfolding close
  close-IsSound unlocks =
      if_ind (λ (r : Option LaneError × LanedStore). IsSound lane held r.1) s.closed (λ _. sound)
        (λ _. record { texts = sound.texts; state = sound.state })

  pub retire-IsSound : IsSound lane held (retire s)
  unfolding retire
  retire-IsSound = record { texts = sound.texts; state = sound.state }

module _ (f : Faults) (lane : Bytes) (held : List ℕ) (s : LanedStore)
    (sound : IsSound lane held s) where
  without-IsSound : (seq : ℕ) → IsSound lane (without seq held) s
  without-IsSound seq = record {
    texts = All-mono (TextOk-without lane seq held) (candidates s.file) sound.texts;
    state = IsGood-without lane seq held s.state sound.state;
  }

  kept-IsGood :
      (seq : ℕ)
      → 0 < seq
      → seq < s.state.next
      → found_at seq (search seq s.state.free) s.state.free ≡ false
      → IsGood lane (without seq held) (record s.state { free = keep seq s.state.free })
  kept-IsGood seq pos issued absent =
      let g = IsGood-without lane seq held s.state sound.state in
      record {
        right_version = g.right_version;
        right_lane = g.right_lane;
        positive = g.positive;
        fits = g.fits;
        free_list =
            keep-IsFreeList s.state.next seq s.state.free pos issued absent sound.state.free_list;
        free_apart =
            keep-All (λ x. NotIn x (without seq held)) seq s.state.free (without-NotIn seq held)
              g.free_apart;
        held_below = g.held_below;
      }

  abandoned-IsGood : IsGood lane held (record s.state { abandoned = true })
  abandoned-IsGood = record {
    right_version = sound.state.right_version;
    right_lane = sound.state.right_lane;
    positive = sound.state.positive;
    fits = sound.state.fits;
    free_list = sound.state.free_list;
    free_apart = sound.state.free_apart;
    held_below = sound.state.held_below;
  }

module _ (f : Faults) (lane : Bytes) (held : List ℕ) (s : LanedStore)
    (sound : IsSound lane held s) where
  abbrev Given : ℕ → Result LaneError Bool × LanedStore → Type 0
  Given seq r = IsSound lane (without seq held) r.1

  pub release-IsSound : (seq : ℕ) → IsSound lane (without seq held) (release f s seq).1
  unfolding release
  release-IsSound seq =
      let old = without-IsSound f lane held s sound seq in
      if_ind (Given seq) s.closed (λ _. old)
        λ _.
          if_ind (Given seq) (seq == 0 || leb s.state.next seq) (λ _. old)
            λ issued.
              if_ind (Given seq) (found_at seq (search seq s.state.free) s.state.free) (λ _. old)
                λ absent.
                  let good =
                    kept-IsGood f lane held s sound seq (ground arith) (ground arith) absent in
                  elim (persist-IsSound f lane (without seq held) s old _ (without seq held) good
                    good) [ inl (e, h) ↦ h | inr (x, e, h) ↦ h ]

  pub abandon-IsSound : (unlocks : Bool) → IsSound lane held (abandon f unlocks s).1
  unfolding abandon
  abandon-IsSound unlocks =
      if_ind (λ (r : Option LaneError × LanedStore). IsSound lane held r.1) s.closed (λ _. sound)
        λ _.
          (let good = abandoned-IsGood f lane held s sound in
            elim (persist-IsSound f lane held s sound _ held good good) [
              | inl (e, h) ↦ rw e (record { texts = h.texts; state = h.state })
              | inr (x, e, h) ↦ rw e h
            ])

-- A content of a lane's file that says the lane was given up.
abbrev pub SaysAbandoned : Option LaneText → Type 0
SaysAbandoned none = ⊥
SaysAbandoned (some undecodable) = ⊥
SaysAbandoned (some trailing_data) = ⊥
SaysAbandoned (some (document d)) = d.abandoned ≡ true

abandon_ok :
    (f : Faults) (s : LanedStore)
    → s.closed ≡ false
    → let marked = record s.state { abandoned = true } in
      (write_durable f s.file (document marked)).1 ≡ none
      → abandon f true s ≡ (
        none,
        record s {
          file = (write_durable f s.file (document marked)).0;
          state = marked;
          closed = true;
        },
      )
unfolding abandon
abandon_ok f s e e' = simp (e, persist_ok f s (record s.state { abandoned = true }) e')

abandon_failed :
    (f : Faults) (s : LanedStore) {w : WriteError}
    → s.closed ≡ false
    → (write_durable f s.file (document (record s.state { abandoned = true }))).1 ≡ some w
    → (abandon f true s).0 ≡ some (write_failed w)
unfolding abandon
abandon_failed f s e e' = simp (e, persist_failed f s (record s.state { abandoned = true }) e')

abandon_closed :
    (f : Faults) (s : LanedStore) → s.closed ≡ true → (abandon f true s).0 ≡ some LaneError.closed
unfolding abandon
abandon_closed f s e = simp e

-- An `Abandon` of a lane that reports no error leaves nothing but an abandoned document in the
-- lane's file, whatever a crash undoes, and a closed store.
pub abandon_is_durable :
    (f : Faults) (s : LanedStore)
    → (abandon f true s).0 ≡ none
    → All SaysAbandoned (candidates (abandon f true s).1.file)
      × ((abandon f true s).1.closed ≡ true)
abandon_is_durable f s h = elim (Bool-cases s.closed) [
  | inl e ↦ let no = abandon_closed f s e in cc
  | inr e ↦
      let marked = record s.state { abandoned = true } in
      elim (Option-cases (write_durable f s.file (document marked)).1) [
        | inl e' ↦
            rw (abandon_ok f s e e')
              (write_durable-All_new SaysAbandoned f s.file (document marked) e' refl, refl)
        | inr (w, e') ↦ let no = abandon_failed f s e e' in cc
      ]
]
