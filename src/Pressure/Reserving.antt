-- ===== src/Pressure/Reserving.antt =====
-- `Reserve` and the ledger: a refusal leaves all as it was, a reservation is entered.
use housegate.Base.{
  ℕ, ◌≡◌, refl, ap, ◌∙◌, Bool, true, false, Option, none, some, List, [], String, Result, ok, err,
  arith, if◌then◌else◌,
}
use housegate.Pressure.Scope.{ScopeError, partition_texts}
use housegate.Pressure.Guard.{Part, Reservation, Guard, find_handle}
use housegate.Pressure.Admission.{
  BackpressureError, admit, admitted, admitted_if, capture, check_available, new_reservation,
}
use housegate.Pressure.Skeleton.{Alike, Alike-refl, Alike-trans, skeleton, written, written-Alike}
use housegate.Pressure.Undisturbed.{refresh_scope-Alike}
use housegate.Pressure.Ledger.{
  outstanding, IsBalanced, find_bone, find_bone-skeleton, find_handle-id, get_or-reserve_parts,
}
use housegate.Pressure.Balance.{Held, Alike-IsBalanced}
use housegate.Pressure.Inventory.{Reading}
use housegate.Pressure.Refresh.{refresh_scope}
use housegate.Pressure.Calls.{
  scope_of, reserve, reserve_parsed, reserve_refreshed, named_reservation, set_statement,
}

pub find_handle-Held :
    (id : ℕ) (r : Reservation) (g : Guard) → find_handle id g.handles ≡ some r → Held r g
find_handle-Held id r g e =
    ap (λ i. find_bone i (skeleton g.handles)) (find_handle-id id r g.handles e)
    ∙ find_bone-skeleton id r g.handles e

-- `reserve`: what is refused leaves all as it was, what is given adds one reservation.
abbrev pub Fair : {E : Type 0} → Guard → Result E ℕ × Guard → Type 0
Fair g (err e, h) = Alike g h
Fair g (ok id, h) = IsBalanced h

admit-IsBalanced : (parts : List Part) (g : Guard) → IsBalanced g → IsBalanced (admit parts g).1
unfolding admit outstanding
admit-IsBalanced parts g b k = omega (arith, b k, get_or-reserve_parts k parts g.reserved)

module _ (g : Guard) (b : IsBalanced g) where
  admitted-Fair : (o : Result BackpressureError (List Part)) → Fair g (admitted o g)
  admitted-Fair (err e) = Alike-refl g
  admitted-Fair (ok parts) = admit-IsBalanced parts g b

  admitted_if-Fair :
      (e : Option BackpressureError) (o : Result BackpressureError (List Part))
      → Fair g (admitted_if e o g)
  admitted_if-Fair (some e) o = Alike-refl g
  admitted_if-Fair none o = admitted-Fair o

pub new_reservation-Fair :
    (now : ℕ) (table : String) (ids : List String) (enforce : Bool) (g : Guard)
    → IsBalanced g
    → Fair g (new_reservation now table ids enforce g)
unfolding new_reservation
new_reservation-Fair now table ids enforce g b =
    admitted_if-Fair g b (if enforce then check_available now g table "" else none)
      (capture now g table enforce [] ids)

Fair-Alike : {E : Type 0} (f g : Guard) (r : Result E ℕ × Guard) → Alike f g → Fair g r → Fair f r
Fair-Alike f g (err e, h) a fair = Alike-trans f g h a fair
Fair-Alike f g (ok id, h) a fair = fair

module _ (now : ℕ) (is_cancelled : Bool) (x : Reading) (statement table : String)
    (ids : List String) where
  named-Fair :
      (g : Guard) (r : Result BackpressureError ℕ × Guard)
      → Fair g r
      → Fair g (named_reservation statement r)
  named-Fair g (err e, h) fair = fair
  named-Fair g (ok id, h) fair =
      Alike-IsBalanced h (written id (set_statement statement) h)
        (written-Alike id (set_statement statement) h (λ q. refl)) fair

  refreshed-Fair :
      (p : Bool × Guard)
      → IsBalanced p.1
      → Fair p.1 (reserve_refreshed now is_cancelled statement table ids p)
  refreshed-Fair (false, g) b = Alike-refl g
  refreshed-Fair (true, g) b =
      named-Fair g (new_reservation now table ids true g)
        (new_reservation-Fair now table ids true g b)

  parsed-Fair :
      (o : Result ScopeError (List String × Bool)) (g : Guard)
      → IsBalanced g
      → Fair g (reserve_parsed now is_cancelled x statement table ids o g)
  parsed-Fair (err e) g b = Alike-refl g
  parsed-Fair (ok texts) g b =
      let scope = scope_of g table ids in
      let p = refresh_scope scope x g in
      let alike = refresh_scope-Alike scope x g in
      Fair-Alike g p.1 _ alike (refreshed-Fair p (Alike-IsBalanced g p.1 alike b))

  pub reserve-Fair :
      (g : Guard) → IsBalanced g → Fair g (reserve now is_cancelled x statement table ids g)
  unfolding reserve
  reserve-Fair g b = parsed-Fair (partition_texts ids) g b
