-- ===== src/Pressure/Untouched.antt =====
-- Admission and the cleanup proof leave the claims on exact parts alone.
use housegate.Base.{
  ℕ, refl, Bool, true, false, Option, none, some, List, [], ◌∷◌, String, str_eq, Result, ok, err,
  if_ind,
}
use housegate.Intake.Records.{CandidatePart}
use housegate.Pressure.Scope.{PartsKey, covers, has_text}
use housegate.Pressure.Maps.{get_or}
use housegate.Pressure.Guard.{Part, Reservation, Guard, find_handle}
use housegate.Pressure.Admission.{
  BackpressureError, admitted_if, capture, check_available, new_reservation, admit,
}
use housegate.Pressure.Claims.{BindError, key_index_for_candidate}
use housegate.Pressure.Skeleton.{written}
use housegate.Pressure.Intact.{
  Intact, Intact-refl, Intact-trans, reconcile_all-Intact, invalidate_keys-Intact,
}
use housegate.Pressure.Refresh.{invalidate_keys}
use housegate.Pressure.Calls.{reserve_refreshed, named_reservation}
use housegate.Pressure.Cleanup.{
  fence, table_scope, freeze_at, freeze_behind, freeze_each, arm, arm_bound, rebase_after_cleanup,
  live_parts, set_armed, affected_keys, rebase_handles,
}

-- `Reserve` after its refresh.
pub admitted_if-Intact :
    (e : Option BackpressureError) (o : Result BackpressureError (List Part)) (g : Guard)
    → Intact g (admitted_if e o g).1
unfolding admit
admitted_if-Intact (some e) o g = Intact-refl g
admitted_if-Intact none (err e) g = Intact-refl g
admitted_if-Intact none (ok parts) g = record { claims = refl; parts = refl; configured = refl }

pub new_reservation-Intact :
    (now : ℕ) (table : String) (ids : List String) (g : Guard)
    → Intact g (new_reservation now table ids true g).1
unfolding new_reservation
new_reservation-Intact now table ids g =
    admitted_if-Intact (check_available now g table "") (capture now g table true [] ids) g

pub named-Intact :
    (statement : String) (p : Result BackpressureError ℕ × Guard)
    → Intact p.1 (named_reservation statement p).1
named-Intact statement (err e, g) = Intact-refl g
named-Intact statement (ok id, g) = record { claims = refl; parts = refl; configured = refl }

pub refreshed-Intact :
    (now : ℕ) (is_cancelled : Bool) (statement table : String) (ids : List String)
    (p : Bool × Guard)
    → Intact p.1 (reserve_refreshed now is_cancelled statement table ids p).1
refreshed-Intact now is_cancelled statement table ids (false, g) = Intact-refl g
refreshed-Intact now is_cancelled statement table ids (true, g) =
    let p = new_reservation now table ids true g in
    Intact-trans g p.1 _ (new_reservation-Intact now table ids g) (named-Intact statement p)

-- The cleanup proof.
pub fence-Intact : (r : Reservation) (g : Guard) → Intact g (fence r g)
fence-Intact r g =
    Intact-trans g (invalidate_keys (covers (table_scope g r)) g) _
      (invalidate_keys-Intact (covers (table_scope g r)) g)
      (record { claims = refl; parts = refl; configured = refl })

module _ (r : Reservation) where
  pub freeze_at-Intact :
      (name : String) (at : ℕ × PartsKey) (g : Guard) → Intact g (freeze_at r name at g)
  freeze_at-Intact name (n, key) g =
      if_ind (Intact g) (has_text name (get_or [] key g.active_parts))
        (λ _. record { claims = refl; parts = refl; configured = refl }) (λ _. Intact-refl g)

  pub freeze_behind-Intact :
      (c : CandidatePart) (o : Result BindError (ℕ × PartsKey))
      (rest : Guard → Option BindError × Guard) (g : Guard)
      → ((h : Guard) → Intact h (rest h).1)
      → Intact g (freeze_behind r c o rest g).1
  freeze_behind-Intact c (err e) rest g a = Intact-refl g
  freeze_behind-Intact c (ok at) rest g a =
      Intact-trans g (freeze_at r c.part_name at g) _ (freeze_at-Intact c.part_name at g) (a _)

  pub freeze_each-Intact : (cs : List CandidatePart) (g : Guard) → Intact g (freeze_each r cs g).1
  unfolding freeze_each
  freeze_each-Intact [] g = Intact-refl g
  freeze_each-Intact (c ∷ cs) g =
      if_ind (λ (p : Option BindError × Guard). Intact g p.1) (str_eq c.part_name "")
        (λ _. Intact-refl g)
        (λ _.
          freeze_behind-Intact c (key_index_for_candidate c r.parts) (freeze_each r cs) g
            (freeze_each-Intact cs))

  pub arm-Intact : (p : Option BindError × Guard) → Intact p.1 (arm r p).1
  arm-Intact (some e, g) = fence-Intact r g
  arm-Intact (none, g) =
      let armed = written r.id set_armed g in
      Intact-trans g armed _ (record { claims = refl; parts = refl; configured = refl })
        (invalidate_keys-Intact (covers (table_scope g r)) armed)

  pub arm_bound-Intact :
      (cs : List CandidatePart) (p : Option BindError × Guard) → Intact p.1 (arm_bound r cs p).1
  arm_bound-Intact cs (some e, g) = fence-Intact r g
  arm_bound-Intact cs (none, g) =
      Intact-trans g (freeze_each r cs g).1 _ (freeze_each-Intact cs g)
        (arm-Intact (freeze_each r cs g))

pub rebase_after_cleanup-Intact : (id : ℕ) (g : Guard) → Intact g (rebase_after_cleanup id g)
unfolding rebase_after_cleanup
rebase_after_cleanup-Intact id g =
    let removed = live_parts (find_handle id g.handles) in
    let moved = record g { handles = rebase_handles g id removed g.handles } in
    Intact-trans g moved _ (record { claims = refl; parts = refl; configured = refl })
      (reconcile_all-Intact (affected_keys id removed g.handles) moved)
