-- ===== src/Pressure/LiveReads.antt =====
-- What `RefreshLiveKeys` reads: every partition that a live reservation or an exact part with an owner
-- stands in, said without the lists that the code gathers.
use housegate.Base.{
  ℕ, suc, ◌+◌, ◌≡◌, refl, ap, ◌∙◌, Bool, true, false, ◌&&◌, ◌||◌, List, [], ◌∷◌, ◌++◌, str_eq,
  str_eq_refl, if_ind, arith, Bool-cases, inl, inr, length, IsSublist, keeps, leaves,
}
use housegate.Pressure.Scope.{PartsKey, PartsScope, key_eq_refl, covers}
use housegate.Pressure.Guard.{Part, Reservation, Claim, Guard}
use housegate.Pressure.Lifecycle.{keys_of}
use housegate.Pressure.Inventory.{Reading, has_member}
use housegate.Pressure.Refresh.{refresh_scope}
use housegate.Pressure.LiveKeys.{
  live_reservation_keys, claim_keys, live_keys, live_scopes, refresh_scopes, refresh_live_keys,
  any_covers, live_scopes-covers,
}

-- A part of a live reservation, or an exact part with an owner, stands in the partition; `x ∷ []` is a
-- sublist where `x` is a member.
pub data IsLive (k : PartsKey) (g : Guard) : Type 0 where
  reserves :
      (r : Reservation) (p : Part)
      → IsSublist (r ∷ []) g.handles
      → r.live ≡ true
      → IsSublist (p ∷ []) r.parts
      → p.key ≡ k
      → IsLive k g
  owns : (c : Claim) → IsSublist (c ∷ []) g.candidate_claims → c.key ≡ k → IsLive k g

has_member-append :
    (k : PartsKey) (xs ys : List PartsKey)
    → has_member k (xs ++ ys) ≡ (has_member k xs || has_member k ys)
has_member-append k [] ys = refl
has_member-append k (x ∷ xs) ys = ground (arith, has_member-append k xs ys)

part-has_member :
    {k : PartsKey} {p : Part} {ps : List Part}
    → IsSublist (p ∷ []) ps
    → p.key ≡ k
    → has_member k (keys_of ps) ≡ true
part-has_member {k} (keeps p s) e = rw e (ground (arith, key_eq_refl k))
part-has_member (leaves q s) e = ground (arith, part-has_member s e)

reservation-has_member :
    {k : PartsKey} {r : Reservation} {p : Part} {rs : List Reservation}
    → IsSublist (r ∷ []) rs
    → r.live ≡ true
    → IsSublist (p ∷ []) r.parts
    → p.key ≡ k
    → has_member k (live_reservation_keys rs) ≡ true
unfolding live_reservation_keys
reservation-has_member {k} (keeps r {ys = rs} s) live m e =
    let here = part-has_member m e in
    rw live
      (has_member-append k (keys_of r.parts) (live_reservation_keys rs) ∙ ground (arith, here))
reservation-has_member {k} (leaves q {ys = rs} s) live m e =
    let later = reservation-has_member s live m e in
    if_ind (λ ks. has_member k ks ≡ true) q.live
      (λ _.
        has_member-append k (keys_of q.parts) (live_reservation_keys rs) ∙ ground (arith, later))
      (λ _. later)

claim-has_member :
    {k : PartsKey} {c : Claim} {cs : List Claim}
    → IsSublist (c ∷ []) cs
    → c.key ≡ k
    → has_member k (claim_keys cs) ≡ true
unfolding claim_keys
claim-has_member {k} (keeps c s) e = rw e (ground (arith, key_eq_refl k))
claim-has_member (leaves d s) e = ground (arith, claim-has_member s e)

IsLive-has_member : {k : PartsKey} {g : Guard} → IsLive k g → has_member k (live_keys g) ≡ true
IsLive-has_member {k} {g} (reserves r p s live m e) =
    let there = reservation-has_member s live m e in
    has_member-append k (live_reservation_keys g.handles) (claim_keys g.candidate_claims)
    ∙ ground (arith, there)
IsLive-has_member {k} {g} (owns c s e) =
    let there = claim-has_member s e in
    has_member-append k (live_reservation_keys g.handles) (claim_keys g.candidate_claims)
    ∙ ground (arith, there)

and_assoc : (a b c : Bool) → (a && (b && c)) ≡ ((a && b) && c)
and_assoc true b c = refl
and_assoc false b c = refl

refresh_scopes-append :
    (x : ℕ → Reading) (i j : ℕ) (ss ts : List PartsScope) (g : Guard)
    → j ≡ i + length ss
    → let (b, h) = refresh_scopes x i ss g in
      let (c, h') = refresh_scopes x j ts h in refresh_scopes x i (ss ++ ts) g ≡ (b && c, h')
unfolding refresh_scopes
refresh_scopes-append x i j [] ts g e =
    let same : i ≡ j = omega (arith, e) in ap (λ n. refresh_scopes x n ts g) same
refresh_scopes-append x i j (s ∷ ss) ts g e =
    let (well, g') = refresh_scope s (x i) g in
    let (b, h) = refresh_scopes x (suc i) ss g' in
    let (c, h') = refresh_scopes x j ts h in
    ap (λ (o : Bool × Guard). (well && o.0, o.1))
      (refresh_scopes-append x (suc i) j ss ts g' (omega (arith, e)))
    ∙ ap (λ (d : Bool). (d, h')) (and_assoc well b c)

-- A scope that covers the key, with those before it and behind it.
covering :
    (ss : List PartsScope) (k : PartsKey)
    → any_covers ss k ≡ true
    → (before : List PartsScope) × (s : PartsScope) × (after : List PartsScope) × (ss
        ≡ before ++ s ∷ after)
      × (covers s k ≡ true)
unfolding any_covers
covering [] k h = cc
covering (s ∷ ss) k h = elim (Bool-cases (covers s k)) [
  | inl e ↦ ([], s, ss, refl, e)
  | inr e ↦
      let (before, t, after, split, c) = covering ss k (ground (arith, e, h)) in
      (s ∷ before, t, after, ap (λ us. s ∷ us) split, c)
]

-- If a partition of the unsafe database has a part of a live reservation, or an exact part with an owner,
-- then one of the reads of `RefreshLiveKeys` is of a scope that covers it: the call makes some reads,
-- then this one, then the others, and reports success only if this read too succeeded.
pub refresh_live_keys-reads :
    (x : ℕ → Reading) (g : Guard) (k : PartsKey)
    → IsLive k g
    → k.database ≡ g.cfg.unsafe_database
    → (before : List PartsScope) × (s : PartsScope) × (after : List PartsScope) × (covers s k
        ≡ true)
      × (let (b, h) = refresh_scopes x 0 before g in
          let (well, h') = refresh_scope s (x (length before)) h in
          let (c, h'') = refresh_scopes x (suc (length before)) after h' in
          refresh_live_keys x g ≡ (b && (well && c), h''))
unfolding refresh_live_keys refresh_scopes
refresh_live_keys-reads x g k live at =
    let unsafe : str_eq k.database g.cfg.unsafe_database ≡ true = rw at (str_eq_refl _) in
    let (before, s, after, split, c) =
      covering (live_scopes g) k (live_scopes-covers g k (IsLive-has_member live) unsafe) in
    (
      before,
      s,
      after,
      c,
      ap (λ ss. refresh_scopes x 0 ss g) split
          ∙ refresh_scopes-append x 0 (length before) before (s ∷ after) g (omega arith),
    )
