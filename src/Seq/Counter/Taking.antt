-- ===== src/Seq/Counter/Taking.antt =====
-- The methods of a counter that hand seqs out, against its invariant: `Reserve` and
-- `ReserveSupplied` of seq.go.
use housegate.Base.{
  ℕ, suc, ◌+◌, ◌%◌, ◌<◌, ◌≡◌, refl, subst, if_ind, Option, none, some, List, [], ◌∷◌, arith, Result,
  ok, err, leb, ◌==◌, Bool-cases, ◌⊎◌, inl, inr, NotIn, Apart, All-le-NotIn,
}
use housegate.Durable.{Faults}
use housegate.Seq.FreeList.{Apart-grow, IsFreeList, tail-IsFreeList, head-NotIn}
use housegate.Seq.Counter.{
  SeqCounter, SeqError, u64_mod, max_u64, persist_locked, reserve_supplied, reserve_free, reserve,
}
use housegate.Seq.Counter.Sound.{IsSound, persist_locked-IsSound, persist_free_locked-IsSound}

-- The seqs that a call has handed out: none after an error.
abbrev pub handed : Result SeqError ℕ → List ℕ → List ℕ
handed (ok n) held = n ∷ held
handed (err e) held = held

module _ (f : Faults) (held : List ℕ) (c : SeqCounter) (s : IsSound held c) where
  open s use {floor, floor_le, last_fits, seqs, frees, free_list, free_apart, held_issued}

  -- `Reserve` from a free list, or past the last seq.
  reserve_free-IsSound :
      (xs : List ℕ)
      → IsFreeList (suc floor) xs
      → Apart xs held
      → let (r, c') = reserve_free f c xs in IsSound (handed r held) c'
  unfolding reserve_free
  reserve_free-IsSound [] good apart = elim (Bool-cases (c.last == max_u64)) [
    | inl e ↦ rw e s
    | inr e ↦
        rw e
          (elim (persist_locked-IsSound f held c s ((c.last + 1) % u64_mod) (ground arith)
            (ground arith)) [ inl (e', h) ↦ rw e' h | inr (w, e', h) ↦ rw e' h ])
  ]
  reserve_free-IsSound (x ∷ xs) good apart =
      elim (persist_free_locked-IsSound f held c s xs (x ∷ held) (tail-IsFreeList _ x xs good)
        apart.1 (Apart-grow x xs held (head-NotIn _ x xs good) apart.1)
        (ground (arith, good.below.0), held_issued)) [
          | inl (e', h) ↦ rw e' h
          | inr (w, e', h) ↦ rw e' h
        ]

  -- `Reserve` hands out a seq that nobody holds.
  reserve_free-fresh :
      (xs : List ℕ) (n : ℕ)
      → IsFreeList (suc floor) xs
      → Apart xs held
      → (reserve_free f c xs).0 ≡ ok n
      → NotIn n held × (0 < n)
  unfolding reserve_free
  reserve_free-fresh [] n good apart h =
      let next : n ≡ c.last + 1 = ground (arith, persist_locked f c ((c.last + 1) % u64_mod)) in
      (All-le-NotIn n floor held (omega arith) held_issued, omega arith)
  reserve_free-fresh (x ∷ xs) n good apart h =
      let head : x ≡ n = ground arith in
      (subst (λ m. NotIn m held) head apart.0, omega (arith, good.ascends.0))

  -- `Reserve` keeps the invariant, and what it hands out is held from then on.
  pub reserve-IsSound : let (r, c') = reserve f c in IsSound (handed r held) c'
  unfolding reserve
  reserve-IsSound =
      if_ind (λ (r : Result SeqError ℕ × SeqCounter). IsSound (handed r.0 held) r.1) c.closed
        (λ _. s) (λ _. reserve_free-IsSound c.free free_list free_apart)

  not_handed : {n : ℕ} {e : SeqError} → err e ≡ ok n → NotIn n held × (0 < n)
  not_handed h = cc

  pub reserve-fresh : (n : ℕ) → (reserve f c).0 ≡ ok n → NotIn n held × (0 < n)
  unfolding reserve
  reserve-fresh n =
      if_ind (λ (r : Result SeqError ℕ × SeqCounter). r.0 ≡ ok n → NotIn n held × (0 < n)) c.closed
        (λ _. not_handed) (λ _. reserve_free-fresh c.free n free_list free_apart)

  -- A supplied seq is held from now on, and nobody held it; or nothing changes for the holders.
  abbrev Supplied : ℕ → Option SeqError × SeqCounter → Type 0
  Supplied seq (e, c') =
      ((e ≡ none) × IsSound (seq ∷ held) c' × NotIn seq held)
      ⊎ ((w : SeqError) × (e ≡ some w) × IsSound held c')

  -- `ReserveSupplied` accepts only seqs above every one that was handed out.
  pub reserve_supplied-IsSound : (seq : ℕ) → seq < u64_mod → Supplied seq (reserve_supplied f c seq)
  unfolding reserve_supplied
  reserve_supplied-IsSound seq fits =
      if_ind (Supplied seq) c.closed (λ _. inr (_, refl, s))
        λ _.
          if_ind (Supplied seq) (seq == max_u64) (λ _. inr (_, refl, s))
            λ _.
              if_ind (Supplied seq) (leb seq c.last) (λ _. inr (_, refl, s))
                λ above. elim (persist_locked-IsSound f held c s seq (ground arith) fits) [
                  | inl (e, h) ↦ inl (e, h, All-le-NotIn seq floor held (ground arith) held_issued)
                  | inr q ↦ inr q
                ]
