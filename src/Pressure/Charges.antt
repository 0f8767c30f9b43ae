-- ===== src/Pressure/Charges.antt =====
-- The debt of a key after it is reconciled: growth of the inventory never pays for a slot that it cannot
-- be shown to belong to.
use housegate.Base.{
  ℕ, suc, ◌+◌, ◌-◌, ◌≤◌, ◌<◌, ◌≡◌, refl, ap, ◌∙◌, Bool, true, false, List, [], ◌∷◌, String, ◌==◌,
  if◌then◌else◌, if_ind, option_ind, arith, length, Bool-cases, inl, inr,
}
use housegate.Pressure.Scope.{PartsKey, key_eq_refl}
use housegate.Pressure.Maps.{delete, get_or, get_or-put, get_or-delete}
use housegate.Pressure.Guard.{Slot, Guard, find_handle, generation}
use housegate.Pressure.Debt.{
  SlotView, views, comes_before, insert_view, sort_views, is_unresolved, count_unresolved,
  covered_slots, prune_finalized, prune_all, set_entries, settle, reconcile_views, reconcile_slots,
  reconcile, kept_slots, finalized_ids, slots_of, mark_covered,
}

module _ (gen : ℕ) (active : List String) where
  one : SlotView → ℕ
  one v = if is_unresolved gen active v then 1 else 0

  count_unresolved-cons :
      (v : SlotView) (vs : List SlotView)
      → count_unresolved gen active (v ∷ vs) ≡ one v + count_unresolved gen active vs
  unfolding count_unresolved one
  count_unresolved-cons v vs =
      let rest = count_unresolved gen active vs in by (is_unresolved gen active v) rest
    where
      by : (b : Bool) (n : ℕ) → (if b then suc n else n) ≡ (if b then 1 else 0) + n
      by true n = omega arith
      by false n = omega arith

  count_unresolved-insert_view :
      (v : SlotView) (vs : List SlotView)
      → count_unresolved gen active (insert_view v vs) ≡ one v + count_unresolved gen active vs
  unfolding insert_view
  count_unresolved-insert_view v [] = count_unresolved-cons v []
  count_unresolved-insert_view v (w ∷ ws) =
      if_ind
        (λ (xs : List SlotView).
          count_unresolved gen active xs ≡ one v + count_unresolved gen active (w ∷ ws))
        (comes_before w v)
        (λ _. omega (
          arith,
          count_unresolved-cons w (insert_view v ws),
          count_unresolved-cons w ws,
          count_unresolved-insert_view v ws,
        ))
        (λ _. count_unresolved-cons v (w ∷ ws))

  count_unresolved-sort_views :
      (vs : List SlotView)
      → count_unresolved gen active (sort_views vs) ≡ count_unresolved gen active vs
  unfolding sort_views
  count_unresolved-sort_views [] = refl
  count_unresolved-sort_views (v ∷ vs) = omega (
    arith,
    count_unresolved-insert_view v (sort_views vs),
    count_unresolved-cons v vs,
    count_unresolved-sort_views vs,
  )

  count_unresolved-le : (vs : List SlotView) → count_unresolved gen active vs ≤ length vs
  unfolding count_unresolved one
  count_unresolved-le [] = omega arith
  count_unresolved-le (v ∷ vs) =
      if_ind (λ (n : ℕ). n ≤ suc (length vs)) (is_unresolved gen active v)
        (λ _. omega (arith, count_unresolved-le vs)) (λ _. omega (arith, count_unresolved-le vs))

  covered_slots-le :
      (observed total : ℕ) (vs : List SlotView)
      → covered_slots gen observed active total vs ≤ total - count_unresolved gen active vs
  unfolding covered_slots
  covered_slots-le observed total vs = ground arith

length-insert_view :
    (v : SlotView) (vs : List SlotView) → length (insert_view v vs) ≡ suc (length vs)
unfolding insert_view
length-insert_view v [] = refl
length-insert_view v (w ∷ ws) =
    if_ind (λ (xs : List SlotView). length xs ≡ suc (suc (length ws))) (comes_before w v)
      (λ _. ap suc (length-insert_view v ws)) (λ _. refl)

length-sort_views : (vs : List SlotView) → length (sort_views vs) ≡ length vs
unfolding sort_views
length-sort_views [] = refl
length-sort_views (v ∷ vs) = length-insert_view v (sort_views vs) ∙ ap suc (length-sort_views vs)

prune_finalized-committed : (id : ℕ) (g : Guard) → (prune_finalized id g).committed ≡ g.committed
unfolding prune_finalized
prune_finalized-committed id g =
    option_ind (λ (h : Guard). h.committed ≡ g.committed) (find_handle id g.handles) (λ _. refl)
      (λ r _. if_ind (λ (h : Guard). h.committed ≡ g.committed) _ (λ _. refl) (λ _. refl))

prune_all-committed : (ids : List ℕ) (g : Guard) → (prune_all ids g).committed ≡ g.committed
unfolding prune_all
prune_all-committed [] g = refl
prune_all-committed (id ∷ ids) g =
    prune_all-committed ids (prune_finalized id g) ∙ prune_finalized-committed id g

set_entries-committed :
    (key : PartsKey) (ss : List Slot) (g : Guard)
    → get_or 0 key (set_entries key ss 0 g).committed ≡ 0
set_entries-committed key [] g = get_or-delete 0 key key g.committed ∙ rw (key_eq_refl key)
set_entries-committed key (s ∷ ss) g = get_or-delete 0 key key g.committed ∙ rw (key_eq_refl key)

-- The debt that is written down: what is not covered.
settle-committed :
    (key : PartsKey) (covered : ℕ) (vs : List SlotView) (g : Guard)
    → covered ≤ length vs
    → get_or 0 key (settle key covered vs g).committed ≡ length vs - covered
unfolding settle
settle-committed key covered vs g le = elim (Bool-cases (covered == length vs)) [
  | inl all ↦ rw all (
      ap (get_or 0 key)
        (prune_all-committed (finalized_ids vs) (set_entries key (kept_slots vs) 0 g))
      ∙ set_entries-committed key (kept_slots vs) g
      ∙ ground (arith, all))
  | inr some_left ↦ rw some_left (left vs (ground (arith, some_left)))
]
  where
    left :
        (ws : List SlotView)
        → covered < length ws
        → get_or 0 key (set_entries key (slots_of ws) (length ws - covered) g).committed
          ≡ length ws - covered
    left [] h = absurd (omega arith)
    left (w ∷ ws) h =
        let n = suc (length ws) - covered in
        let nonzero : (n == 0) ≡ false = ground arith in
        rw nonzero (get_or-put 0 key key n g.committed ∙ rw (key_eq_refl key))

-- The debt lies between the slots that the code counts as unresolved and all slots.
abbrev pub Bounded : Guard → PartsKey → List SlotView → ℕ → Type 0
Bounded g key vs debt =
    (count_unresolved (generation g key) (get_or [] key g.active_parts) vs ≤ debt)
    × (debt ≤ length vs)

reconcile_views-Bounded :
    (key : PartsKey) (vs : List SlotView) (g : Guard)
    → Bounded g key vs (get_or 0 key (reconcile_views key (sort_views vs) g).committed)
unfolding reconcile_views
reconcile_views-Bounded key vs g =
    let sorted = sort_views vs in
    let gen = generation g key in
    let active = get_or [] key g.active_parts in
    let covered = covered_slots gen (get_or 0 key g.snapshot) active (length sorted) sorted in
    let few = covered_slots-le gen active (get_or 0 key g.snapshot) (length sorted) sorted in
    let same = count_unresolved-sort_views gen active vs in
    let most = count_unresolved-le gen active sorted in
    let all = length-sort_views vs in
    let debt =
      settle-committed key covered sorted
        (record g { handles = mark_covered gen active sorted g.handles }) (omega (arith, few)) in
    (omega (arith, few, same, most, all, debt), omega (arith, few, same, most, all, debt))

reconcile_slots-Bounded :
    (key : PartsKey) (ss : List Slot) (g : Guard)
    → Bounded g key (views g.handles ss) (get_or 0 key (reconcile_slots key ss g).committed)
unfolding views count_unresolved
reconcile_slots-Bounded key [] g =
    let gone : get_or 0 key (delete key g.committed) ≡ 0 =
      get_or-delete 0 key key g.committed ∙ rw (key_eq_refl key) in
    (omega arith, omega (arith, gone))
reconcile_slots-Bounded key (s ∷ ss) g = reconcile_views-Bounded key (views g.handles (s ∷ ss)) g

pub reconcile-Bounded :
    (key : PartsKey) (g : Guard)
    → Bounded g key
        (views g.handles (get_or [] key g.committed_reservations))
        (get_or 0 key (reconcile key g).committed)
unfolding reconcile
reconcile-Bounded key g = reconcile_slots-Bounded key (get_or [] key g.committed_reservations) g
