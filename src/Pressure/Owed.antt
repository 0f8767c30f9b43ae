-- ===== src/Pressure/Owed.antt =====
-- The slots that stay charged in any case, said without the counts of the code: what growth of the
-- inventory cannot pay for.
use housegate.Base.{
  ℕ, ◌≤◌, ◌≡◌, ◌≢◌, ◌⊎◌, inl, inr, refl, true, false, List, [], ◌∷◌, String, arith, All, length,
  IsSublist, empty, keeps, leaves,
}
use housegate.Pressure.Scope.{PartsKey, has_text, is_nil}
use housegate.Pressure.Maps.{get_or}
use housegate.Pressure.Guard.{
  ReservationState, reserved, committed, finalized, released, Part, Guard, generation,
}
use housegate.Pressure.Debt.{
  SlotView, views, has_new_active, is_exact_covered, is_finalized, is_unresolved, count_unresolved,
  reconcile,
}
use housegate.Pressure.Charges.{reconcile-Bounded}

module _ (gen : ℕ) (active : List String) where
  -- None of the names of the part has been seen: each was there before, or is not active.
  abbrev pub IsUnseen : Part → Type 0
  IsUnseen p =
      All (λ name. (has_text name p.initial_parts ≡ true) ⊎ (has_text name active ≡ false))
        p.candidate_parts

  -- A slot that growth of the inventory cannot pay for: no read has covered it, and either it names
  -- exact parts and none of them has been seen since it was admitted, or it names none, the answer of its
  -- prepare was lost, and it is not finalized.
  pub data IsOwed (v : SlotView) : Type 0 where
    unseen :
        v.part.candidate_covered ≡ false
        → v.part.candidate_parts ≢ []
        → (gen ≤ v.part.visible_after) ⊎ IsUnseen v.part
        → IsOwed v
    lost :
        v.part.candidate_covered ≡ false
        → v.part.candidate_parts ≡ []
        → v.owner.unbound_retained ≡ true
        → v.owner.state ≢ finalized
        → IsOwed v

  unseen-has_new_active :
      (initial names : List String)
      → All (λ name. (has_text name initial ≡ true) ⊎ (has_text name active ≡ false)) names
      → has_new_active active initial names ≡ false
  unfolding has_new_active
  unseen-has_new_active initial [] h = refl
  unseen-has_new_active initial (n ∷ ns) h = elim h.0 [
    | inl e ↦ ground (arith, e, unseen-has_new_active initial ns h.1)
    | inr e ↦ ground (arith, e, unseen-has_new_active initial ns h.1)
  ]

  named : (names : List String) → names ≢ [] → is_nil names ≡ false
  named [] h = absurd (h refl)
  named (n ∷ ns) h = refl

  not_finalized : (s : ReservationState) → s ≢ finalized → is_finalized s ≡ false
  not_finalized reserved h = refl
  not_finalized committed h = refl
  not_finalized finalized h = absurd (h refl)
  not_finalized released h = refl

  unseen-is_exact_covered :
      (p : Part)
      → p.candidate_covered ≡ false
      → (gen ≤ p.visible_after) ⊎ IsUnseen p
      → is_exact_covered gen active p ≡ false
  unseen-is_exact_covered p c (inl late) = ground (arith, c, late)
  unseen-is_exact_covered p c (inr u) =
      ground (arith, c, unseen-has_new_active p.initial_parts p.candidate_parts u)

  IsOwed-is_unresolved : (v : SlotView) → IsOwed v → is_unresolved gen active v ≡ true
  IsOwed-is_unresolved v (unseen c some_named u) =
      ground (arith, unseen-is_exact_covered v.part c u, named v.part.candidate_parts some_named)
  IsOwed-is_unresolved v (lost c unnamed retained still) =
      let none_new : has_new_active active v.part.initial_parts v.part.candidate_parts ≡ false =
        rw unnamed (unseen-has_new_active v.part.initial_parts [] tt) in
      let uncovered : is_exact_covered gen active v.part ≡ false = ground (arith, c, none_new) in
      ground (arith, uncovered, retained, not_finalized v.owner.state still)

  owed-count_unresolved :
      {owed vs : List SlotView}
      → IsSublist owed vs
      → All IsOwed owed
      → length owed ≤ count_unresolved gen active vs
  unfolding count_unresolved
  owed-count_unresolved empty all = omega arith
  owed-count_unresolved (keeps v s) all =
      ground (arith, IsOwed-is_unresolved v all.0, owed-count_unresolved s all.1)
  owed-count_unresolved (leaves v s) all = ground (arith, owed-count_unresolved s all)

-- After a reconciliation the debt of a key is at least the number of any of its slots that are owed,
-- however many parts the inventory shows, and at most the number of all its slots. A slot is owed if no
-- read has covered it, and either it names exact parts and no read came since its admission or none of
-- the names is both new and active, or it names none, the answer of its prepare was lost, and it is not
-- finalized.
pub reconcile_bounds :
    (key : PartsKey) (g : Guard) (owed : List SlotView)
    → IsSublist owed (views g.handles (get_or [] key g.committed_reservations))
    → All (IsOwed (generation g key) (get_or [] key g.active_parts)) owed
    → (length owed ≤ get_or 0 key (reconcile key g).committed)
      × (get_or 0 key (reconcile key g).committed
          ≤ length (views g.handles (get_or [] key g.committed_reservations)))
reconcile_bounds key g owed s all =
    let (least, most) = reconcile-Bounded key g in
    let few = owed-count_unresolved (generation g key) (get_or [] key g.active_parts) s all in
    (omega (arith, least, few), most)
