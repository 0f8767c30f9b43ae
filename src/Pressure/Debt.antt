-- ===== src/Pressure/Debt.antt =====
-- How much of the committed reservations a snapshot covers (parts_pressure.go): the debt of a key, and
-- the states of a reservation that change it.
use housegate.Base.{
  ℕ, zero, suc, ◌+◌, ◌-◌, Bool, true, false, not, ◌&&◌, ◌||◌, Option, none, some, List, [], ◌∷◌,
  String, ◌==◌, ltb, leb, if◌then◌else◌, map, length,
}
use housegate.Pressure.Scope.{PartsKey, has_text, is_nil}
use housegate.Pressure.Maps.{PartsMap, put, delete, get_or}
use housegate.Pressure.Guard.{
  ReservationState, reserved, committed, finalized, released, Part, Reservation, Slot, Guard,
  find_handle, update_handle, generation,
}

-- A slot with what its pointer and its index stand for.
pub record SlotView : Type 0 where
  pub slot : Slot
  pub owner : Reservation
  pub part : Part

unfoldable pub part_at : ℕ → List Part → Option Part
part_at n [] = none
part_at zero (p ∷ ps) = some p
part_at (suc n) (p ∷ ps) = part_at n ps

abbrev pub view_with : Slot → Reservation → Option Part → Option SlotView
view_with s r none = none
view_with s r (some p) = some (record { slot = s; owner = r; part = p })

abbrev pub view_of : Slot → Option Reservation → Option SlotView
view_of s none = none
view_of s (some r) = view_with s r (part_at s.key_index r.parts)

abbrev pub view_onto : Option SlotView → List SlotView → List SlotView
view_onto none vs = vs
view_onto (some v) vs = v ∷ vs

unfoldable pub views : List Reservation → List Slot → List SlotView
unfolding find_handle part_at
views hs [] = []
views hs (s ∷ ss) = view_onto (view_of s (find_handle s.reservation hs)) (views hs ss)

-- The order of `coveredReservationSlotsLocked`: baseline, generation, id.
abbrev pub comes_before : SlotView → SlotView → Bool
comes_before v w =
    if v.part.baseline == w.part.baseline
    then (if v.part.visible_after == w.part.visible_after
        then ltb v.owner.id w.owner.id
        else ltb v.part.visible_after w.part.visible_after)
    else ltb v.part.baseline w.part.baseline

unfoldable pub insert_view : SlotView → List SlotView → List SlotView
insert_view v [] = v ∷ []
insert_view v (w ∷ ws) =
    let rest = insert_view v ws in if comes_before w v then w ∷ rest else v ∷ w ∷ ws

unfoldable pub sort_views : List SlotView → List SlotView
unfolding insert_view
sort_views [] = []
sort_views (v ∷ vs) = insert_view v (sort_views vs)

-- The first loop: aggregate coverage, in the order above.
abbrev pub next_after : ℕ → ℕ → ℕ
next_after baseline next = if ltb next (baseline + 1) then baseline + 1 else next

unfoldable pub count_visible : ℕ → ℕ → ℕ → List SlotView → ℕ
count_visible gen observed next [] = 0
count_visible gen observed next (v ∷ vs) =
    let n = next_after v.part.baseline next in
    let seen = suc (count_visible gen observed (n + 1) vs) in
    let unseen = count_visible gen observed n vs in
    if ltb v.part.visible_after gen && leb n observed then seen else unseen

-- The second loop: a slot is covered by an active candidate that is new since its admission.
unfoldable pub has_new_active : List String → List String → List String → Bool
unfolding has_text
has_new_active active initial [] = false
has_new_active active initial (name ∷ names) =
    (not (has_text name initial) && has_text name active) || has_new_active active initial names

abbrev pub is_exact_covered : ℕ → List String → Part → Bool
is_exact_covered gen active p =
    p.candidate_covered
    || (ltb p.visible_after gen && has_new_active active p.initial_parts p.candidate_parts)

unfoldable pub count_exact : ℕ → List String → List SlotView → ℕ
unfolding has_new_active
count_exact gen active [] = 0
count_exact gen active (v ∷ vs) =
    let rest = count_exact gen active vs in
    if is_exact_covered gen active v.part then suc rest else rest

abbrev pub is_finalized : ReservationState → Bool
is_finalized reserved = false
is_finalized committed = false
is_finalized finalized = true
is_finalized released = false

-- A slot that aggregate growth cannot cover: its exact part is named and not seen, or the answer of its
-- prepare was lost and it can still be cancelled.
abbrev pub is_unresolved : ℕ → List String → SlotView → Bool
is_unresolved gen active v =
    not (is_exact_covered gen active v.part)
    && (not (is_nil v.part.candidate_parts)
        || (v.owner.unbound_retained && not (is_finalized v.owner.state)))

unfoldable pub count_unresolved : ℕ → List String → List SlotView → ℕ
unfolding has_new_active
count_unresolved gen active [] = 0
count_unresolved gen active (v ∷ vs) =
    let rest = count_unresolved gen active vs in
    if is_unresolved gen active v then suc rest else rest

-- `coveredReservationSlotsLocked`, of slots in their order.
abbrev pub maximum : ℕ → ℕ → ℕ
maximum a b = if ltb a b then b else a

abbrev pub minimum : ℕ → ℕ → ℕ
minimum a b = if ltb b a then b else a

unfoldable pub covered_slots : ℕ → ℕ → List String → ℕ → List SlotView → ℕ
unfolding count_visible count_exact count_unresolved
covered_slots gen observed active total vs =
    minimum (maximum (count_visible gen observed 0 vs) (count_exact gen active vs))
      (total - count_unresolved gen active vs)

-- Its writes of `candidateCovered`.
unfoldable pub set_part : ℕ → (Part → Part) → List Part → List Part
set_part n f [] = []
set_part zero f (p ∷ ps) = f p ∷ ps
set_part (suc n) f (p ∷ ps) = p ∷ set_part n f ps

abbrev pub update_part : ℕ → ℕ → (Part → Part) → List Reservation → List Reservation
update_part id n f hs = update_handle id (λ r. record r { parts = set_part n f r.parts }) hs

unfoldable pub mark_covered : ℕ → List String → List SlotView → List Reservation → List Reservation
unfolding has_new_active update_handle set_part
mark_covered gen active [] hs = hs
mark_covered gen active (v ∷ vs) hs = mark_covered gen active vs (
    if is_exact_covered gen active v.part
    then update_part v.slot.reservation v.slot.key_index
        (λ p. record p { candidate_covered = true }) hs
    else hs)

-- `pruneFinalizedReservationLocked`
unfoldable pub has_slot_of : ℕ → List Slot → Bool
has_slot_of id [] = false
has_slot_of id (s ∷ ss) = s.reservation == id || has_slot_of id ss

unfoldable pub is_entered : ℕ → PartsMap (List Slot) → Bool
unfolding has_slot_of
is_entered id [] = false
is_entered id ((k, ss) ∷ m) = has_slot_of id ss || is_entered id m

abbrev pub set_dead : Reservation → Reservation
set_dead r = record r { live = false }

unfoldable pub prune_finalized : ℕ → Guard → Guard
unfolding is_entered find_handle update_handle
prune_finalized id g = elim (find_handle id g.handles) [
  | none ↦ g
  | some r ↦
      if not (is_finalized r.state) || is_entered id g.committed_reservations
      then g
      else record g { handles = update_handle id set_dead g.handles }
]

unfoldable pub prune_all : List ℕ → Guard → Guard
unfolding prune_finalized
prune_all [] g = g
prune_all (id ∷ ids) g = prune_all ids (prune_finalized id g)

-- The entries that stay when the whole cohort is covered, and the reservations of the others.
unfoldable pub kept_slots : List SlotView → List Slot
kept_slots [] = []
kept_slots (v ∷ vs) =
    let rest = kept_slots vs in if is_finalized v.owner.state then rest else v.slot ∷ rest

unfoldable pub finalized_ids : List SlotView → List ℕ
finalized_ids [] = []
finalized_ids (v ∷ vs) =
    let rest = finalized_ids vs in
    if is_finalized v.owner.state then v.slot.reservation ∷ rest else rest

abbrev pub slots_of : List SlotView → List Slot
slots_of vs = map (λ (v : SlotView). v.slot) vs

-- `reconcileCommittedKeyLocked`
abbrev pub set_entries : PartsKey → List Slot → ℕ → Guard → Guard
set_entries key [] pending g = record g {
  committed_reservations = delete key g.committed_reservations;
  committed = delete key g.committed;
}
set_entries key (s ∷ ss) pending g = record g {
  committed_reservations = put key (s ∷ ss) g.committed_reservations;
  committed = if pending == 0 then delete key g.committed else put key pending g.committed;
}

unfoldable pub settle : PartsKey → ℕ → List SlotView → Guard → Guard
unfolding kept_slots finalized_ids prune_all
settle key covered vs g =
    if covered == length vs
    then prune_all (finalized_ids vs) (set_entries key (kept_slots vs) 0 g)
    else set_entries key (slots_of vs) (length vs - covered) g

unfoldable pub reconcile_views : PartsKey → List SlotView → Guard → Guard
unfolding covered_slots mark_covered settle
reconcile_views key vs g =
    let gen = generation g key in
    let active = get_or [] key g.active_parts in
    settle key (covered_slots gen (get_or 0 key g.snapshot) active (length vs) vs) vs
      (record g { handles = mark_covered gen active vs g.handles })

abbrev pub reconcile_slots : PartsKey → List Slot → Guard → Guard
reconcile_slots key [] g = record g { committed = delete key g.committed }
reconcile_slots key (s ∷ ss) g = reconcile_views key (sort_views (views g.handles (s ∷ ss))) g

unfoldable pub reconcile : PartsKey → Guard → Guard
unfolding views sort_views reconcile_views
reconcile key g = reconcile_slots key (get_or [] key g.committed_reservations) g

unfoldable pub reconcile_all : List PartsKey → Guard → Guard
unfolding reconcile
reconcile_all [] g = g
reconcile_all (k ∷ ks) g = reconcile_all ks (reconcile k g)
