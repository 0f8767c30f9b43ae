-- ===== src/Pressure/Binding.antt =====
-- Binding an exact part takes it from no other reservation.
use housegate.Base.{
  ℕ, ◌≡◌, ◌≢◌, refl, sym, ap, ◌∙◌, Bool, false, not, ◌&&◌, ◌||◌, Option, none, some, List, [], ◌∷◌,
  String, str_eq, str_eq→eq, Result, ok, err, All, arith, if_ind, Bool-cases, ◌⊎◌, inl, inr,
}
use housegate.Intake.Records.{CandidatePart}
use housegate.Pressure.Scope.{PartsKey, key_eq→eq, has_text}
use housegate.Pressure.Maps.{get_or}
use housegate.Pressure.Guard.{Part, Reservation, Claim, Guard}
use housegate.Pressure.Claims.{
  BindError, is_claim_of, find_claim, put_claim, owned_by_another, bind_behind, check_candidates,
  claimed, bind_one, bind_each, bind_candidates, bound_or, is_released, none_given,
  key_index_for_candidate,
}
use housegate.Pressure.Owners.{
  owner, owner-find_claim, owner-find_none, find_claim-at, owner-put_claim,
}

-- A candidate with its key, whose part nobody but the reservation owns, an owner with the id 0 aside.
abbrev Free : ℕ → List Claim → CandidatePart × ℕ × PartsKey → Type 0
Free id cs (c, n, key) = (i : ℕ) → owner key c.part_name cs ≡ some i → i ≢ 0 → i ≡ id

-- What a write of a claim by `id` does to the owner of an exact part: nothing, or it is `id` now and
-- was nobody else before, a claim with the id 0 aside, which the code takes for none.
abbrev Taken : ℕ → Option ℕ → Option ℕ → Type 0
Taken id before after =
    (after ≡ before) ⊎ ((after ≡ some id) × ((i : ℕ) → before ≡ some i → i ≢ 0 → i ≡ id))

pub put_claim-stays :
    (d : Claim) (cs : List Claim) (k : PartsKey) (name : String) (i : ℕ)
    → owner d.key d.name cs ≡ some d.reservation
    → owner k name cs ≡ some i
    → owner k name (put_claim d cs) ≡ some i
put_claim-stays d cs k name i own h = elim (Bool-cases (is_claim_of k name d)) [
  | inl e ↦
      let at_key = key_eq→eq d.key k (ground (arith, e)) in
      let at_name = str_eq→eq d.name name (ground (arith, e)) in
      let before : owner k name cs ≡ owner d.key d.name cs =
        ap (λ j. owner j name cs) (sym at_key) ∙ ap (λ n. owner d.key n cs) (sym at_name) in
      owner-put_claim k name d cs ∙ (rw e) ∙ sym own ∙ sym before ∙ h
  | inr e ↦ owner-put_claim k name d cs ∙ (rw e) ∙ h
]

put_claim-Taken :
    (d : Claim) (cs : List Claim) (k : PartsKey) (name : String)
    → ((i : ℕ) → owner d.key d.name cs ≡ some i → i ≢ 0 → i ≡ d.reservation)
    → Taken d.reservation (owner k name cs) (owner k name (put_claim d cs))
put_claim-Taken d cs k name free = elim (Bool-cases (is_claim_of k name d)) [
  | inl e ↦
      let at_key = key_eq→eq d.key k (ground (arith, e)) in
      let at_name = str_eq→eq d.name name (ground (arith, e)) in
      let before : owner k name cs ≡ owner d.key d.name cs =
        ap (λ j. owner j name cs) (sym at_key) ∙ ap (λ n. owner d.key n cs) (sym at_name) in
      inr (owner-put_claim k name d cs ∙ rw e, λ i h. free i (sym before ∙ h))
  | inr e ↦ inl (owner-put_claim k name d cs ∙ rw e)
]

bind_one-Taken :
    (r : Reservation) (c : CandidatePart) (n : ℕ) (key : PartsKey) (g : Guard) (k : PartsKey)
    (name : String)
    → Free r.id g.candidate_claims (c, n, key)
    → Taken r.id
        (owner k name g.candidate_claims)
        (owner k name (bind_one r (c, n, key) g).candidate_claims)
unfolding bind_one
bind_one-Taken r c n key g k name free = go (find_claim key c.part_name g.candidate_claims) refl
  where
    active : Bool
    active = has_text c.part_name (get_or [] key g.active_parts)

    put : Option Claim → Claim
    put o =
        let claim = claimed r c key o in
        record claim { observed_active = claim.observed_active || active }

    go :
        (o : Option Claim)
        → find_claim key c.part_name g.candidate_claims ≡ o
        → Taken r.id
            (owner k name g.candidate_claims)
            (owner k name (put_claim (put o) g.candidate_claims))
    go none e = put_claim-Taken (put none) g.candidate_claims k name free
    go (some old) e =
        let at = find_claim-at key c.part_name g.candidate_claims old e in
        let at_key = key_eq→eq old.key key (ground (arith, at)) in
        let at_name = str_eq→eq old.name c.part_name (ground (arith, at)) in
        let before : owner old.key old.name g.candidate_claims
            ≡ owner key c.part_name g.candidate_claims =
          ap (λ j. owner j old.name g.candidate_claims) at_key
          ∙ ap (λ n. owner key n g.candidate_claims) at_name in
        put_claim-Taken (put (some old)) g.candidate_claims k name (λ i h. free i (sym before ∙ h))

Taken-free :
    (id : ℕ) (before after : Option ℕ)
    → Taken id before after
    → ((i : ℕ) → before ≡ some i → i ≢ 0 → i ≡ id)
    → (i : ℕ) → after ≡ some i
    → i ≢ 0
    → i ≡ id
Taken-free id before after (inl e) free i h z = free i (sym e ∙ h) z
Taken-free id before after (inr (e, f)) free i h z = cc

Taken-stays :
    (id i : ℕ) (before after : Option ℕ)
    → i ≢ 0
    → Taken id before after
    → before ≡ some i
    → after ≡ some i
Taken-stays id i before after proper (inl e) h = e ∙ h
Taken-stays id i before after proper (inr (e, f)) h = e ∙ ap some (sym (f i h proper))

bind_one-Free :
    (r : Reservation) (b : CandidatePart × ℕ × PartsKey) (g : Guard)
    → Free r.id g.candidate_claims b
    → (bs : List (CandidatePart × ℕ × PartsKey)) → All (Free r.id g.candidate_claims) bs
    → All (Free r.id (bind_one r b g).candidate_claims) bs
bind_one-Free r b g free [] h = tt
bind_one-Free r (c, n, key) g free ((c', n', key') ∷ bs) h = (
  Taken-free r.id _ _ (bind_one-Taken r c n key g key' c'.part_name free) h.0,
  bind_one-Free r (c, n, key) g free bs h.1,
)

bind_each-stays :
    (r : Reservation) (bs : List (CandidatePart × ℕ × PartsKey)) (g : Guard) (k : PartsKey)
    (name : String) (i : ℕ)
    → i ≢ 0
    → All (Free r.id g.candidate_claims) bs
    → owner k name g.candidate_claims ≡ some i
    → owner k name (bind_each r bs g).candidate_claims ≡ some i
unfolding bind_each
bind_each-stays r [] g k name i z free h = h
bind_each-stays r ((c, n, key) ∷ bs) g k name i z free h =
    bind_each-stays r bs (bind_one r (c, n, key) g) k name i z
      (bind_one-Free r (c, n, key) g free.0 bs free.1)
      (Taken-stays r.id i _ _ z (bind_one-Taken r c n key g k name free.0) h)

-- Candidates that pass the first loop are free.
abbrev FreeIf : ℕ → List Claim → Result BindError (List (CandidatePart × ℕ × PartsKey)) → Type 0
FreeIf id cs (err e) = Unit
FreeIf id cs (ok bs) = All (Free id cs) bs

owned-Free :
    (id : ℕ) (cs : List Claim) (c : CandidatePart) (n : ℕ) (key : PartsKey) (o : Option Claim)
    → find_claim key c.part_name cs ≡ o
    → owned_by_another id o ≡ false
    → Free id cs (c, n, key)
owned-Free id cs c n key none e h i own z = let gone = owner-find_none key c.part_name cs e in cc
owned-Free id cs c n key (some d) e h i own z =
    let own' = owner-find_claim key c.part_name cs d e in
    let same : some i ≡ some d.reservation = sym own ∙ own' in ground (arith, h, same, z)

bind_behind-FreeIf :
    (id : ℕ) (cs : List Claim) (c : CandidatePart) (at : Result BindError (ℕ × PartsKey))
    (rest : Result BindError (List (CandidatePart × ℕ × PartsKey)))
    → FreeIf id cs rest
    → FreeIf id cs (bind_behind id cs c at rest)
bind_behind-FreeIf id cs c (err e) rest f = tt
bind_behind-FreeIf id cs c (ok (n, key)) rest f =
    if_ind (FreeIf id cs) (owned_by_another id (find_claim key c.part_name cs)) (λ _. tt)
      (λ h. onto rest f (owned-Free id cs c n key (find_claim key c.part_name cs) refl h))
  where
    onto :
        (rest : Result BindError (List (CandidatePart × ℕ × PartsKey)))
        → FreeIf id cs rest
        → Free id cs (c, n, key)
        → FreeIf id cs (elim rest [ err e ↦ err e | ok bs ↦ ok ((c, n, key) ∷ bs) ])
    onto (err e) f free = tt
    onto (ok bs) f free = (free, f)

check_candidates-FreeIf :
    (id : ℕ) (ps : List Part) (cs : List Claim) (xs : List CandidatePart)
    → FreeIf id cs (check_candidates id ps cs xs)
unfolding check_candidates
check_candidates-FreeIf id ps cs [] = tt
check_candidates-FreeIf id ps cs (c ∷ xs) =
    if_ind (FreeIf id cs) (str_eq c.part_name "") (λ _. tt)
      (λ _.
        bind_behind-FreeIf id cs c (key_index_for_candidate c ps) _
          (check_candidates-FreeIf id ps cs xs))

-- Whoever owns an exact part still owns it after any bind, of the same reservation or of another.
pub bind_candidates-stays :
    (r : Reservation) (cs : List CandidatePart) (g : Guard) (k : PartsKey) (name : String) (i : ℕ)
    → i ≢ 0
    → owner k name g.candidate_claims ≡ some i
    → owner k name (bind_candidates r cs g).1.candidate_claims ≡ some i
unfolding bind_candidates
bind_candidates-stays r cs g k name i z h =
    if_ind Stays (is_released r.state) (λ _. h)
      (λ _.
        if_ind Stays (not (none_given cs) && g.hooked && str_eq r.statement_id "") (λ _. h)
          (λ _.
            by (check_candidates r.id r.parts g.candidate_claims cs)
              (check_candidates-FreeIf r.id r.parts g.candidate_claims cs)))
  where
    Stays : Option BindError × Guard → Type 0
    Stays p = owner k name p.1.candidate_claims ≡ some i

    by :
        (o : Result BindError (List (CandidatePart × ℕ × PartsKey)))
        → FreeIf r.id g.candidate_claims o
        → owner k name (bound_or r o g).1.candidate_claims ≡ some i
    by (err e) f = h
    by (ok bs) f = bind_each-stays r bs g k name i z f h

bind_each-parts :
    (r : Reservation) (bs : List (CandidatePart × ℕ × PartsKey)) (g : Guard)
    → (bind_each r bs g).active_parts ≡ g.active_parts
unfolding bind_each bind_one
bind_each-parts r [] g = refl
bind_each-parts r ((c, n, key) ∷ bs) g = bind_each-parts r bs (bind_one r (c, n, key) g)

pub bind_candidates-parts :
    (r : Reservation) (cs : List CandidatePart) (g : Guard)
    → (bind_candidates r cs g).1.active_parts ≡ g.active_parts
unfolding bind_candidates
bind_candidates-parts r cs g =
    if_ind Same (is_released r.state) (λ _. refl)
      (λ _.
        if_ind Same (not (none_given cs) && g.hooked && str_eq r.statement_id "") (λ _. refl)
          (λ _. by (check_candidates r.id r.parts g.candidate_claims cs)))
  where
    Same : Option BindError × Guard → Type 0
    Same p = p.1.active_parts ≡ g.active_parts

    by :
        (o : Result BindError (List (CandidatePart × ℕ × PartsKey)))
        → (bound_or r o g).1.active_parts ≡ g.active_parts
    by (err e) = refl
    by (ok bs) = bind_each-parts r bs g
