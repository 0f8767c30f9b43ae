-- ===== src/Seq/Counter/Sound.antt =====
-- What holds of a counter between two calls, of its memory and of all that a restart may read: the
-- invariant of seq.go, and that every method keeps it.
use housegate.Base.{
  ℕ, suc, ◌≤◌, ◌<◌, ◌≡◌, ◌≢◌, refl, Option, none, some, List, ◌∷◌, arith, ◌⊎◌, inl, inr, All,
  All-mono, Apart, All-without, without, Option-cases,
}
use housegate.Durable.{Faults, candidates, write_durable, write_durable-All, write_durable-All_new}
use housegate.Seq.FreeList.{Apart-hold, IsFreeList, IsFreeList-mono}
use housegate.Seq.Counter.{
  SeqCounter, SeqText, garbled, decimal, FreeText, undecodable, document, SeqError, u64_mod,
  persist_locked, persist_free_locked,
}

-- A content of the first file that a restart may read: a number no less than `last`.
abbrev pub SeqOk : ℕ → Option SeqText → Type 0
SeqOk last none = last ≡ 0
SeqOk last (some garbled) = ⊥
SeqOk last (some (decimal n)) = (last ≤ n) × (n < u64_mod)

-- A free list holds seqs up to `last`, and none that a caller holds.
abbrev pub FreeOk : ℕ → List ℕ → Option FreeText → Type 0
FreeOk last held none = Unit
FreeOk last held (some undecodable) = ⊥
FreeOk last held (some (document v xs)) = (v ≡ 1) × IsFreeList (suc last) xs × Apart xs held

-- `held` are the seqs that callers were handed and have not released. The floor is a number that no
-- crash can undercut; `last` may stand above it after a restart that read a rename not yet synced.
pub record IsSound (held : List ℕ) (c : SeqCounter) : Type 0 where
  pub floor : ℕ
  pub floor_le : floor ≤ c.last
  pub last_fits : c.last < u64_mod
  pub seqs : All (SeqOk floor) (candidates c.seq_file)
  pub frees : All (FreeOk floor held) (candidates c.free_file)
  pub free_list : IsFreeList (suc floor) c.free
  pub free_apart : Apart c.free held
  pub held_issued : All (λ h. h ≤ floor) held

-- A number above `last` becomes held: it is on no free list.
pub FreeOk-hold :
    (a b : ℕ) (held : List ℕ) (o : Option FreeText)
    → a < b
    → FreeOk a held o
    → FreeOk b (b ∷ held) o
FreeOk-hold a b held none h f = tt
FreeOk-hold a b held (some undecodable) h f = f
FreeOk-hold a b held (some (document v xs)) h f = (
  f.0,
  IsFreeList-mono (suc a) (suc b) xs (omega arith) f.1,
  Apart-hold (suc a) b xs held (omega arith) f.1.below f.2,
)

pub FreeOk-without :
    (a n : ℕ) (held : List ℕ) (o : Option FreeText) → FreeOk a held o → FreeOk a (without n held) o
FreeOk-without a n held none f = tt
FreeOk-without a n held (some undecodable) f = f
FreeOk-without a n held (some (document v xs)) f =
    (f.0, f.1, All-mono (λ x p. All-without (λ y. y ≢ x) n held p) xs f.2)

SeqOk-raise : (a b : ℕ) (o : Option SeqText) → a ≤ b → SeqOk b o → SeqOk a o
SeqOk-raise a b none h p = omega arith
SeqOk-raise a b (some garbled) h p = p
SeqOk-raise a b (some (decimal n)) h p = (omega (arith, p.0), p.1)

module _ (f : Faults) (held : List ℕ) (c : SeqCounter) (s : IsSound held c) where
  open s use {floor, floor_le, last_fits, seqs, frees, free_list, free_apart, held_issued}

  -- The number `next` is reserved, or nothing but the file changes.
  pub persist_locked-IsSound :
      (next : ℕ)
      → c.last < next
      → next < u64_mod
      → let (e, c') = persist_locked f c next in
        ((e ≡ none) × IsSound (next ∷ held) c') ⊎ ((w : SeqError) × (e ≡ some w) × IsSound held c')
  unfolding persist_locked
  persist_locked-IsSound next above fits =
      elim (Option-cases (write_durable f c.seq_file (decimal next)).1) [
        | inl e ↦
            rw (e, persist_locked)
              (inl (
                refl,
                record {
                  floor = next;
                  floor_le = omega arith;
                  last_fits = fits;
                  seqs =
                      write_durable-All_new (SeqOk next) f c.seq_file (decimal next) e
                        (omega arith, fits);
                  frees =
                      All-mono (λ o. FreeOk-hold floor next held o (omega arith))
                        (candidates c.free_file) frees;
                  free_list = IsFreeList-mono (suc floor) (suc next) c.free (omega arith) free_list;
                  free_apart =
                      Apart-hold (suc floor) next c.free held (omega arith) free_list.below
                        free_apart;
                  held_issued = (omega arith, All-mono (λ h p. omega arith) held held_issued);
                },
              ))
        | inr (w, e) ↦
            rw (e, persist_locked)
              (inr (
                _,
                refl,
                record {
                  floor = floor;
                  floor_le = floor_le;
                  last_fits = last_fits;
                  seqs =
                      write_durable-All (SeqOk floor) f c.seq_file (decimal next) seqs
                        (omega arith, fits);
                  frees = frees;
                  free_list = free_list;
                  free_apart = free_apart;
                  held_issued = held_issued;
                },
              ))
      ]

  -- The free list becomes `xs` for callers that hold `held'`, or nothing but the file changes.
  pub persist_free_locked-IsSound :
      (xs held' : List ℕ)
      → IsFreeList (suc floor) xs
      → Apart xs held
      → Apart xs held'
      → All (λ h. h ≤ floor) held'
      → let (e, c') = persist_free_locked f c xs in
        ((e ≡ none) × IsSound held' c') ⊎ ((w : SeqError) × (e ≡ some w) × IsSound held c')
  unfolding persist_free_locked
  persist_free_locked-IsSound xs held' good apart apart' issued =
      elim (Option-cases (write_durable f c.free_file (document 1 xs)).1) [
        | inl e ↦
            rw (e, persist_free_locked)
              (inl (
                refl,
                record {
                  floor = floor;
                  floor_le = floor_le;
                  last_fits = last_fits;
                  seqs = seqs;
                  frees =
                      write_durable-All_new (FreeOk floor held') f c.free_file _ e
                        (refl, good, apart');
                  free_list = good;
                  free_apart = apart';
                  held_issued = issued;
                },
              ))
        | inr (w, e) ↦
            rw (e, persist_free_locked)
              (inr (
                _,
                refl,
                record {
                  floor = floor;
                  floor_le = floor_le;
                  last_fits = last_fits;
                  seqs = seqs;
                  frees =
                      write_durable-All (FreeOk floor held) f c.free_file _ frees
                        (refl, good, apart);
                  free_list = free_list;
                  free_apart = free_apart;
                  held_issued = held_issued;
                },
              ))
      ]
