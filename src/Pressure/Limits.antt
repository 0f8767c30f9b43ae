-- ===== src/Pressure/Limits.antt =====
-- Admission and the limits: what `Reserve` gives stays within them, and what it refuses reserves nothing.
use housegate.Base.{
  ℕ, ◌+◌, ◌≤◌, ◌<◌, ◌≡◌, ◌≢◌, refl, subst, subst⁻¹, ◌⊎◌, inl, inr, Bool, true, false, Option, none,
  some, List, [], ◌∷◌, String, str_eq, str_eq→eq, str_eq_refl, Result, ok, err, All, All-mono,
  arith, Bool-cases,
}
use housegate.Pressure.Scope.{PartsKey, key_eq, key_eq_refl, has_text, ScopeError, partition_texts}
use housegate.Pressure.Guard.{Part, Guard, key_of}
use housegate.Pressure.Admission.{
  BackpressureError, charged, check, check_available, check_capacity, captured, capture,
  capture_one, admit, admitted, admitted_if, new_reservation,
}
use housegate.Pressure.Lifecycle.{keys_of}
use housegate.Pressure.Ledger.{count_key, get_or-reserve_parts}
use housegate.Pressure.Inventory.{Reading}
use housegate.Pressure.Refresh.{refresh_scope}
use housegate.Pressure.Calls.{
  scope_of, reserve, reserve_parsed, reserve_refreshed, named_reservation,
}

module _ (g : Guard) (table : String) where
  key_eq-key_of : (p q : String) → key_eq (key_of g table p) (key_of g table q) ≡ str_eq p q
  unfolding key_eq
  key_eq-key_of p q = ground (arith, str_eq_refl g.cfg.unsafe_database, str_eq_refl table)

-- A key that a reservation does not have, or has once and had room for.
abbrev FitsBy : Guard → PartsKey → ℕ → Type 0
FitsBy g k n =
    (n ≡ 0) ⊎ ((n ≡ 1) × (charged g k < g.cfg.soft_parts) × (charged g k < g.cfg.hard_parts))

abbrev Fits : Guard → PartsKey → List PartsKey → Type 0
Fits g k ks = FitsBy g k (count_key k ks)

module _ (now : ℕ) (g : Guard) (table : String) where
  check-room :
      (p : String)
      → check now g table p ≡ none
      → (charged g (key_of g table p) < g.cfg.soft_parts)
        × (charged g (key_of g table p) < g.cfg.hard_parts)
  unfolding check check_capacity
  check-room p h = ground (arith, h)

  capture_one-ok :
      (o : Option BackpressureError) (p : Part) (r : Result BackpressureError (List Part))
      (parts : List Part)
      → capture_one o p r ≡ ok parts
      → (o ≡ none) × (rest : List Part) × (r ≡ ok rest) × (parts ≡ p ∷ rest)
  capture_one-ok (some e) p r parts h = cc
  capture_one-ok none p (err e) parts h = cc
  capture_one-ok none p (ok rest) parts h = (refl, rest, refl, cc)

  -- A partition is passed over because it was seen, or it is checked and captured.
  capture-cases :
      (seen : List String) (p : String) (ps : List String) (parts : List Part)
      → capture now g table true seen (p ∷ ps) ≡ ok parts
      → ((has_text p seen ≡ true) × (capture now g table true seen ps ≡ ok parts))
        ⊎ ((has_text p seen ≡ false)
            × (check now g table p ≡ none)
            × (rest : List Part) × (capture now g table true (p ∷ seen) ps ≡ ok rest)
            × (parts ≡ captured g (key_of g table p) ∷ rest))
  unfolding capture
  capture-cases seen p ps parts h = elim (Bool-cases (has_text p seen)) [
    | inl e ↦ inl (e, rw e at h)
    | inr e ↦
        let (o, rest, r, same) =
          capture_one-ok (check now g table p) (captured g (key_of g table p))
            (capture now g table true (p ∷ seen) ps) parts (rw e at h) in
        inr (e, o, rest, r, same)
  ]

  capture-seen :
      (q : String) (seen ps : List String) (parts : List Part)
      → has_text q seen ≡ true
      → capture now g table true seen ps ≡ ok parts
      → count_key (key_of g table q) (keys_of parts) ≡ 0
  unfolding capture count_key has_text
  capture-seen q seen [] parts s h = ground (arith, h)
  capture-seen q seen (p ∷ ps) parts s h = elim (capture-cases seen p ps parts h) [
    | inl (e, again) ↦ capture-seen q seen ps parts s again
    | inr (e, o, rest, r, same) ↦
        let behind = capture-seen q (p ∷ seen) ps rest (ground (arith, s)) r in
        rw same (ground (arith, behind, key_eq-key_of g table p q, str_eq→eq p q, e, s))
  ]

  capture-Fits :
      (q : String) (seen ps : List String) (parts : List Part)
      → capture now g table true seen ps ≡ ok parts
      → Fits g (key_of g table q) (keys_of parts)
  unfolding capture count_key has_text
  capture-Fits q seen [] parts h = inl (ground (arith, h))
  capture-Fits q seen (p ∷ ps) parts h = elim (capture-cases seen p ps parts h) [
    | inl (e, again) ↦ capture-Fits q seen ps parts again
    | inr (e, o, rest, r, same) ↦ elim (Bool-cases (str_eq p q)) [
      | inl here ↦
          let behind = capture-seen p (p ∷ seen) ps rest (ground (arith, str_eq_refl p)) r in
          let once : count_key (key_of g table p) (keys_of parts) ≡ 1 =
            rw same (ground (arith, behind, key_eq_refl (key_of g table p))) in
          subst (λ s. Fits g (key_of g table s) (keys_of parts)) (str_eq→eq p q here)
            (inr (once, (check-room p o).0, (check-room p o).1))
      | inr there ↦
          let count : count_key (key_of g table q) (keys_of parts)
              ≡ count_key (key_of g table q) (keys_of rest) =
            rw same (ground (arith, key_eq-key_of g table p q, there)) in
          subst⁻¹ (FitsBy g (key_of g table q)) count (capture-Fits q (p ∷ seen) ps rest r)
    ]
  ]

  -- Every partition that was not seen is captured.
  capture-once :
      (q : String) (seen ps : List String) (parts : List Part)
      → has_text q seen ≡ false
      → has_text q ps ≡ true
      → capture now g table true seen ps ≡ ok parts
      → count_key (key_of g table q) (keys_of parts) ≢ 0
  unfolding capture count_key has_text
  capture-once q seen [] parts s m h = cc
  capture-once q seen (p ∷ ps) parts s m h = elim (capture-cases seen p ps parts h) [
    | inl (e, again) ↦ capture-once q seen ps parts s (ground (arith, m, str_eq→eq p q, e, s)) again
    | inr (e, o, rest, r, same) ↦ elim (Bool-cases (str_eq p q)) [
      | inl here ↦ rw same (ground (arith, key_eq-key_of g table p q, here))
      | inr there ↦
          let behind =
            capture-once q (p ∷ seen) ps rest (ground (arith, s, there)) (ground (arith, m, there))
              r in
          rw same (ground (arith, behind, key_eq-key_of g table p q, there))
    ]
  ]

-- Every partition of the table is charged with at most its limits.
abbrev pub IsWithin : String → List String → Guard → Type 0
IsWithin table ids h =
    All
      (λ q.
        (charged h (key_of h table q) ≤ h.cfg.soft_parts)
        × (charged h (key_of h table q) ≤ h.cfg.hard_parts))
      ids

abbrev WithinIf : {E : Type 0} → String → List String → Result E ℕ × Guard → Type 0
WithinIf table ids (err e, h) = Unit
WithinIf table ids (ok id, h) = IsWithin table ids h

admit-room :
    (parts : List Part) (g : Guard) (k : PartsKey)
    → charged (admit parts g).1 k ≡ charged g k + count_key k (keys_of parts)
unfolding admit charged
admit-room parts g k = omega (arith, get_or-reserve_parts k parts g.reserved)

admit-at :
    (now : ℕ) (g : Guard) (table : String) (ids : List String) (q : String) (parts : List Part)
    → capture now g table true [] ids ≡ ok parts
    → has_text q ids ≡ true
    → (charged (admit parts g).1 (key_of g table q) ≤ g.cfg.soft_parts)
      × (charged (admit parts g).1 (key_of g table q) ≤ g.cfg.hard_parts)
unfolding has_text
admit-at now g table ids q parts h m =
    let room = admit-room parts g (key_of g table q) in
    let there = capture-once now g table q [] ids parts refl m h in
    elim (capture-Fits now g table q [] ids parts h) [
      | inl none_there ↦ absurd (there none_there)
      | inr (once, soft, hard) ↦ (omega (arith, room, once, soft), omega (arith, room, once, hard))
    ]

admit-IsWithin :
    (now : ℕ) (g : Guard) (table : String) (ids qs : List String) (parts : List Part)
    → capture now g table true [] ids ≡ ok parts
    → All (λ q. has_text q ids ≡ true) qs
    → IsWithin table qs (admit parts g).1
unfolding admit
admit-IsWithin now g table ids [] parts h m = tt
admit-IsWithin now g table ids (q ∷ qs) parts h m =
    (admit-at now g table ids q parts h m.0, admit-IsWithin now g table ids qs parts h m.1)

-- Each text stands in the list that it is taken from.
has_text-later :
    (q p : String) (ids : List String) → has_text q ids ≡ true → has_text q (p ∷ ids) ≡ true
unfolding has_text
has_text-later q p ids h = ground (arith, h)

All-has_text : (ids : List String) → All (λ q. has_text q ids ≡ true) ids
unfolding has_text
All-has_text [] = tt
All-has_text (q ∷ ids) =
    (ground (arith, str_eq_refl q), All-mono (λ p. has_text-later p q ids) ids (All-has_text ids))

module _ (now : ℕ) (table : String) (ids : List String) where
  admitted-within :
      (o : Result BackpressureError (List Part)) (g : Guard)
      → capture now g table true [] ids ≡ o
      → WithinIf table ids (admitted o g)
  admitted-within (err e) g h = tt
  admitted-within (ok parts) g h = admit-IsWithin now g table ids ids parts h (All-has_text ids)

  admitted_if-within :
      (e : Option BackpressureError) (g : Guard)
      → WithinIf table ids (admitted_if e (capture now g table true [] ids) g)
  admitted_if-within (some e) g = tt
  admitted_if-within none g = admitted-within (capture now g table true [] ids) g refl

  new_reservation-within : (g : Guard) → WithinIf table ids (new_reservation now table ids true g)
  unfolding new_reservation
  new_reservation-within g = admitted_if-within (check_available now g table "") g

  named-within :
      (statement : String) (r : Result BackpressureError ℕ × Guard)
      → WithinIf table ids r
      → WithinIf table ids (named_reservation statement r)
  unfolding charged
  named-within statement (err e, g) h = tt
  named-within statement (ok id, g) h = h

  module _ (is_cancelled : Bool) (x : Reading) (statement : String) where
    refreshed-within :
        (p : Bool × Guard)
        → WithinIf table ids (reserve_refreshed now is_cancelled statement table ids p)
    refreshed-within (false, g) = tt
    refreshed-within (true, g) = named-within statement _ (new_reservation-within g)

    parsed-within :
        (o : Result ScopeError (List String × Bool)) (g : Guard)
        → WithinIf table ids (reserve_parsed now is_cancelled x statement table ids o g)
    parsed-within (err e) g = tt
    parsed-within (ok texts) g = refreshed-within (refresh_scope (scope_of g table ids) x g)

    IsWithin-ok :
        {E : Type 0} (r : Result E ℕ × Guard) (id : ℕ)
        → r.0 ≡ ok id
        → WithinIf table ids r
        → IsWithin table ids r.1
    IsWithin-ok (err e, g) id h w = cc
    IsWithin-ok (ok i, g) id h w = w

    -- A reservation that `Reserve` gives leaves every partition that it touches with at most the soft
    -- and the hard limit: active parts, reserved parts and committed debt together.
    pub reserve-IsWithin :
        (g : Guard) (id : ℕ)
        → (reserve now is_cancelled x statement table ids g).0 ≡ ok id
        → IsWithin table ids (reserve now is_cancelled x statement table ids g).1
    unfolding reserve
    reserve-IsWithin g id h = IsWithin-ok _ id h (parsed-within (partition_texts ids) g)
