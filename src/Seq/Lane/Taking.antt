-- ===== src/Seq/Lane/Taking.antt =====
-- The methods of a lane that hand seqs out, against its invariant: `Reserve` and `ReserveSupplied`.
use housegate.Base.{
  ℕ, suc, ◌+◌, ◌%◌, ◌≤◌, ◌<◌, ◌≡◌, refl, subst, if_ind, Option, none, some, List, [], ◌∷◌, arith,
  Result, ok, err, ltb, ◌==◌, ◌⊎◌, inl, inr, All, All-mono, NotIn, Apart, Bool-cases, Bytes,
}
use housegate.Durable.{Faults}
use housegate.Seq.FreeList.{
  IsFreeList, IsFreeList-mono, tail-IsFreeList, head-NotIn, Apart-grow, Apart-hold,
}
use housegate.Seq.Counter.{u64_mod, max_u64}
use housegate.Seq.Lane.{LaneError, LanedStore, reserve_from, reserve, reserve_supplied}
use housegate.Seq.Lane.Sound.{IsGood, IsSound, persist-IsSound}

abbrev pub handed : Result LaneError ℕ → List ℕ → List ℕ
handed (ok n) held = n ∷ held
handed (err e) held = held

below-NotIn : (n : ℕ) (held : List ℕ) → All (λ h. h < n) held → NotIn n held
below-NotIn n [] h = tt
below-NotIn n (x ∷ xs) h = (omega (arith, h.0), below-NotIn n xs h.1)

All-lt-NotIn : (n b : ℕ) (held : List ℕ) → b ≤ n → All (λ h. h < b) held → NotIn n held
All-lt-NotIn n b held le h = below-NotIn n held (All-mono (λ x l. omega arith) held h)

module _ (f : Faults) (lane : Bytes) (held : List ℕ) (s : LanedStore)
    (sound : IsSound lane held s) where
  open sound use {state as g}

  taken-IsGood :
      (x : ℕ) (xs : List ℕ)
      → s.state.free ≡ x ∷ xs
      → IsGood lane held (record s.state { free = xs })
        × IsGood lane (x ∷ held) (record s.state { free = xs })
  taken-IsGood x xs e =
      let good : IsFreeList s.state.next (x ∷ xs) = subst (IsFreeList s.state.next) e g.free_list in
      let apart : Apart (x ∷ xs) held = subst (λ ys. Apart ys held) e g.free_apart in
      (
        record {
          right_version = g.right_version;
          right_lane = g.right_lane;
          positive = g.positive;
          fits = g.fits;
          free_list = tail-IsFreeList s.state.next x xs good;
          free_apart = apart.1;
          held_below = g.held_below;
        },
        record {
          right_version = g.right_version;
          right_lane = g.right_lane;
          positive = g.positive;
          fits = g.fits;
          free_list = tail-IsFreeList s.state.next x xs good;
          free_apart = Apart-grow x xs held (head-NotIn s.state.next x xs good) apart.1;
          held_below = (good.below.0, g.held_below);
        },
      )

  -- The state with `next` past a seq that was not handed out, before and after it is.
  raised-IsGood :
      (n m : ℕ)
      → s.state.next ≤ n
      → m ≡ suc n
      → m < u64_mod
      → IsGood lane held (record s.state { next = m })
        × IsGood lane (n ∷ held) (record s.state { next = m })
  raised-IsGood n m le e fits =
      let wider = IsFreeList-mono s.state.next m s.state.free (omega arith) g.free_list in
      (
        record {
          right_version = g.right_version;
          right_lane = g.right_lane;
          positive = omega arith;
          fits = fits;
          free_list = wider;
          free_apart = g.free_apart;
          held_below = All-mono (λ h l. omega arith) held g.held_below;
        },
        record {
          right_version = g.right_version;
          right_lane = g.right_lane;
          positive = omega arith;
          fits = fits;
          free_list = wider;
          free_apart =
              Apart-hold s.state.next n s.state.free held le g.free_list.below g.free_apart;
          held_below = (omega arith, All-mono (λ h l. omega arith) held g.held_below);
        },
      )

  reserve_from-IsSound :
      (xs : List ℕ)
      → s.state.free ≡ xs
      → let (r, s') = reserve_from f s xs in IsSound lane (handed r held) s'
  unfolding reserve_from
  reserve_from-IsSound [] e = elim (Bool-cases (s.state.next == max_u64)) [
    | inl full ↦ simp full sound
    | inr room ↦
        let (before, after) =
          raised-IsGood s.state.next ((s.state.next + 1) % u64_mod) (omega arith)
            (ground (arith, g.fits)) (ground (arith, g.fits)) in
        simp room (elim (persist-IsSound f lane held s sound _ (s.state.next ∷ held) before after) [
          | inl (e', h) ↦ rw e' h
          | inr (x, e', h) ↦ rw e' h
        ])
  ]
  reserve_from-IsSound (x ∷ xs) e =
      let (before, after) = taken-IsGood x xs e in
      elim (persist-IsSound f lane held s sound _ (x ∷ held) before after) [
        | inl (e', h) ↦ rw e' h
        | inr (y, e', h) ↦ rw e' h
      ]

  reserve_from-fresh :
      (xs : List ℕ) (n : ℕ)
      → s.state.free ≡ xs
      → (reserve_from f s xs).0 ≡ ok n
      → NotIn n held × (0 < n)
  unfolding reserve_from
  reserve_from-fresh [] n e h =
      let same : s.state.next ≡ n = ground arith in
      (
        subst (λ m. NotIn m held) same (below-NotIn s.state.next held g.held_below),
        omega (arith, g.positive),
      )
  reserve_from-fresh (x ∷ xs) n e h =
      let same : x ≡ n = ground arith in
      let apart : Apart (x ∷ xs) held = subst (λ ys. Apart ys held) e g.free_apart in
      let good : IsFreeList s.state.next (x ∷ xs) = subst (IsFreeList s.state.next) e g.free_list in
      (subst (λ m. NotIn m held) same apart.0, omega (arith, good.ascends.0))

  pub reserve-IsSound : let (r, s') = reserve f s in IsSound lane (handed r held) s'
  unfolding reserve
  reserve-IsSound =
      if_ind (λ (r : Result LaneError ℕ × LanedStore). IsSound lane (handed r.0 held) r.1) s.closed
        (λ _. sound) (λ _. reserve_from-IsSound s.state.free refl)

  not_handed : {n : ℕ} {e : LaneError} → err e ≡ ok n → NotIn n held × (0 < n)
  not_handed h = cc

  pub reserve-fresh : (n : ℕ) → (reserve f s).0 ≡ ok n → NotIn n held × (0 < n)
  unfolding reserve
  reserve-fresh n =
      if_ind (λ (r : Result LaneError ℕ × LanedStore). r.0 ≡ ok n → NotIn n held × (0 < n)) s.closed
        (λ _. not_handed) (λ _. reserve_from-fresh s.state.free n refl)

  abbrev Supplied : ℕ → Option LaneError × LanedStore → Type 0
  Supplied seq (e, s') =
      ((e ≡ none) × IsSound lane (seq ∷ held) s' × NotIn seq held)
      ⊎ ((x : LaneError) × (e ≡ some x) × IsSound lane held s')

  pub reserve_supplied-IsSound : (seq : ℕ) → seq < u64_mod → Supplied seq (reserve_supplied f s seq)
  unfolding reserve_supplied
  reserve_supplied-IsSound seq fits =
      if_ind (Supplied seq) s.closed (λ _. inr (_, refl, sound))
        λ _.
          if_ind (Supplied seq) (seq == max_u64) (λ _. inr (_, refl, sound))
            λ room.
              if_ind (Supplied seq) (ltb seq s.state.next) (λ _. inr (_, refl, sound))
                λ above.
                  let (before, after) =
                    raised-IsGood seq ((seq + 1) % u64_mod) (ground arith) (ground arith)
                      (ground arith) in
                  elim (persist-IsSound f lane held s sound _ (seq ∷ held) before after) [
                    | inl (e, h) ↦
                        inl (e, h, All-lt-NotIn seq s.state.next held (ground arith) g.held_below)
                    | inr q ↦ inr q
                  ]
