-- ===== src/Seq/Counter/Giving.antt =====
-- The methods of a counter that give seqs back or end it, against its invariant: `Release` and
-- `Close` of seq.go.
use housegate.Base.{
  ℕ, suc, ◌≤◌, ◌≢◌, if_ind, ◌||◌, Bool, List, arith, Result, ltb, ◌==◌, inl, inr, All-mono, NotIn,
  All-without, without, without-NotIn,
}
use housegate.Durable.{Faults, candidates}
use housegate.Seq.FreeList.{keep, keep-IsFreeList, keep-All, search, found_at}
use housegate.Seq.Counter.{SeqCounter, SeqError, release, close}
use housegate.Seq.Counter.Sound.{IsSound, FreeOk-without, persist_free_locked-IsSound}

module _ (held : List ℕ) (c : SeqCounter) (s : IsSound held c) where
  open s use {floor, floor_le, last_fits, seqs, frees, free_list, free_apart, held_issued}

  -- A caller that asks for a release no longer holds the seq, whatever the answer.
  without-IsSound : (seq : ℕ) → IsSound (without seq held) c
  without-IsSound seq = record {
    floor = floor;
    floor_le = floor_le;
    last_fits = last_fits;
    seqs = seqs;
    frees = All-mono (λ o. FreeOk-without floor seq held o) (candidates c.free_file) frees;
    free_list = free_list;
    free_apart = All-mono (λ x p. All-without (λ y. y ≢ x) seq held p) c.free free_apart;
    held_issued = All-without (λ h. h ≤ floor) seq held held_issued;
  }

module _ (f : Faults) (held : List ℕ) (c : SeqCounter) (s : IsSound held c) where
  abbrev Given : ℕ → Result SeqError Bool × SeqCounter → Type 0
  Given seq r = IsSound (without seq held) r.1

  -- `Release` keeps the invariant for callers that no longer hold the seq.
  pub release-IsSound : (seq : ℕ) → seq ≤ s.floor → IsSound (without seq held) (release f c seq).1
  unfolding release without-IsSound
  release-IsSound seq known =
      let old = without-IsSound held c s seq in
      if_ind (Given seq) c.closed (λ _. old)
        λ _.
          if_ind (Given seq) (seq == 0 || ltb c.last seq) (λ _. old)
            λ issued.
              if_ind (Given seq) (found_at seq (search seq c.free) c.free) (λ _. old)
                λ absent.
                  let apart =
                    keep-All (λ x. NotIn x (without seq held)) seq c.free (without-NotIn seq held)
                      old.free_apart in
                  let kept =
                    keep-IsFreeList (suc s.floor) seq c.free (ground arith) (omega (arith, known))
                      absent s.free_list in
                  elim (persist_free_locked-IsSound f (without seq held) c old (keep seq c.free)
                    (without seq held) kept apart apart old.held_issued) [
                      | inl (e, h) ↦ h
                      | inr (w, e, h) ↦ h
                    ]

pub close-IsSound : (held : List ℕ) (c : SeqCounter) → IsSound held c → IsSound held (close c)
unfolding close
close-IsSound held c s = record {
  floor = s.floor;
  floor_le = s.floor_le;
  last_fits = s.last_fits;
  seqs = s.seqs;
  frees = s.frees;
  free_list = s.free_list;
  free_apart = s.free_apart;
  held_issued = s.held_issued;
}
