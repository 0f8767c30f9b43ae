-- ===== src/Pressure/Claims.antt =====
-- Exact part names and who owns them (parts_pressure.go): binding the candidates of a reservation, giving
-- them up, and what an inventory shows of them.
use housegate.Base.{
  ℕ, suc, Bool, true, false, not, ◌&&◌, ◌||◌, Option, none, some, List, [], ◌∷◌, String, str_eq,
  ◌==◌, if◌then◌else◌, Result, ok, err,
}
use housegate.Intake.Records.{CandidatePart}
use housegate.Intake.Consistency.{same_candidate, candidate_part_in}
use housegate.Pressure.Scope.{PartsKey, key_eq, has_text, physical_table_name}
use housegate.Pressure.Maps.{get_or}
use housegate.Pressure.Guard.{
  ReservationState, released, Part, Reservation, Claim, Observation, Guard, update_handle,
}
use housegate.Pressure.Debt.{update_part, set_part}

pub data BindError : Type 0 where
  no_statement_id empty_part_name empty_table_id outside_reservation : BindError
  claimed_by_another : BindError

-- `keyIndexForCandidate`: the key and its index.
unfoldable pub index_of : String → String → ℕ → List Part → Result BindError (ℕ × PartsKey)
index_of table partition n [] = err outside_reservation
index_of table partition n (p ∷ ps) =
    if str_eq p.key.table table && str_eq p.key.partition partition
    then ok (n, p.key)
    else index_of table partition (suc n) ps

unfoldable pub key_index_for_candidate : CandidatePart → List Part → Result BindError (ℕ × PartsKey)
unfolding index_of physical_table_name
key_index_for_candidate c ps =
    if str_eq c.table_id ""
    then err empty_table_id
    else index_of (physical_table_name c.table_id) c.partition_id 0 ps

-- `candidateClaims[key][name]`, and the writes to it.
abbrev pub is_claim_of : PartsKey → String → Claim → Bool
is_claim_of key name c = key_eq c.key key && str_eq c.name name

unfoldable pub find_claim : PartsKey → String → List Claim → Option Claim
find_claim key name [] = none
find_claim key name (c ∷ cs) = if is_claim_of key name c then some c else find_claim key name cs

unfoldable pub put_claim : Claim → List Claim → List Claim
put_claim d [] = d ∷ []
put_claim d (c ∷ cs) =
    let rest = put_claim d cs in if is_claim_of d.key d.name c then d ∷ cs else c ∷ rest

unfoldable pub delete_claim : PartsKey → String → List Claim → List Claim
delete_claim key name [] = []
delete_claim key name (c ∷ cs) =
    let rest = delete_claim key name cs in if is_claim_of key name c then rest else c ∷ rest

-- `pendingObserved`, whose key is the statement and the coordinates of the candidate.
abbrev pub same_observation : Observation → Observation → Bool
same_observation o p =
    str_eq o.statement_id p.statement_id && same_candidate o.candidate p.candidate

unfoldable pub put_pending : Observation → List Observation → List Observation
unfolding same_candidate
put_pending o [] = o ∷ []
put_pending o (p ∷ ps) =
    let rest = put_pending o ps in if same_observation p o then o ∷ ps else p ∷ rest

unfoldable pub delete_pending : Observation → List Observation → List Observation
unfolding same_candidate
delete_pending o [] = []
delete_pending o (p ∷ ps) =
    let rest = delete_pending o ps in if same_observation p o then rest else p ∷ rest

-- The first loop of `bindCandidatePartsLocked`: the key of each candidate, or why there is none.
abbrev pub owned_by_another : ℕ → Option Claim → Bool
owned_by_another id none = false
owned_by_another id (some c) = not (c.reservation == 0) && not (c.reservation == id)

abbrev pub bind_behind :
    ℕ
    → List Claim
    → CandidatePart
    → Result BindError (ℕ × PartsKey)
    → Result BindError (List (CandidatePart × ℕ × PartsKey))
    → Result BindError (List (CandidatePart × ℕ × PartsKey))
bind_behind id claims c (err e) rest = err e
bind_behind id claims c (ok (n, key)) rest =
    if owned_by_another id (find_claim key c.part_name claims)
    then err claimed_by_another
    else elim rest [ err e ↦ err e | ok bs ↦ ok ((c, n, key) ∷ bs) ]

unfoldable pub check_candidates :
    ℕ
    → List Part
    → List Claim
    → List CandidatePart
    → Result BindError (List (CandidatePart × ℕ × PartsKey))
unfolding key_index_for_candidate find_claim
check_candidates id parts claims [] = ok []
check_candidates id parts claims (c ∷ cs) =
    let rest = check_candidates id parts claims cs in
    if str_eq c.part_name ""
    then err empty_part_name
    else bind_behind id claims c (key_index_for_candidate c parts) rest

-- The second loop. The claim that was there, or a new one, with the owner written in.
abbrev pub claimed : Reservation → CandidatePart → PartsKey → Option Claim → Claim
claimed r c key none = record {
  key = key;
  name = c.part_name;
  reservation = r.id;
  statement_id = r.statement_id;
  candidate = c;
  observed_active = candidate_part_in c r.observed_candidates;
  observed_persisted = candidate_part_in c r.observed_candidates;
}
claimed r c key (some old) = record old {
  reservation = r.id;
  statement_id = r.statement_id;
  candidate = c;
  observed_active = old.observed_active || candidate_part_in c r.observed_candidates;
  observed_persisted = old.observed_persisted || candidate_part_in c r.observed_candidates;
}

abbrev pub add_text : String → List String → List String
add_text s xs = if has_text s xs then xs else s ∷ xs

abbrev pub bound_part : String → Bool → Part → Part
bound_part name covered p = record p {
  candidate_parts = add_text name p.candidate_parts;
  candidate_covered = p.candidate_covered || covered;
}

unfoldable pub bind_one : Reservation → CandidatePart × ℕ × PartsKey → Guard → Guard
unfolding find_claim put_claim put_pending update_handle set_part
bind_one r (c, n, key) g =
    let claim = claimed r c key (find_claim key c.part_name g.candidate_claims) in
    let active = has_text c.part_name (get_or [] key g.active_parts) in
    record g {
      candidate_claims =
          put_claim (record claim { observed_active = claim.observed_active || active })
            g.candidate_claims;
      pending_observed =
          if active && not claim.observed_persisted
          then put_pending (record { statement_id = r.statement_id; candidate = c })
              g.pending_observed
          else g.pending_observed;
      handles = update_part r.id n (bound_part c.part_name (active && r.recovered)) g.handles;
    }

unfoldable pub bind_each : Reservation → List (CandidatePart × ℕ × PartsKey) → Guard → Guard
unfolding bind_one
bind_each r [] g = g
bind_each r (b ∷ bs) g = bind_each r bs (bind_one r b g)

-- `bindCandidatePartsLocked`
abbrev pub is_released : ReservationState → Bool
is_released released = true
is_released other = false

abbrev pub none_given : List CandidatePart → Bool
none_given [] = true
none_given (c ∷ cs) = false

abbrev pub bound_or :
    Reservation
    → Result BindError (List (CandidatePart × ℕ × PartsKey))
    → Guard
    → Option BindError × Guard
bound_or r (err e) g = (some e, g)
bound_or r (ok bs) g = (none, bind_each r bs g)

unfoldable pub bind_candidates : Reservation → List CandidatePart → Guard → Option BindError × Guard
unfolding check_candidates bind_each
bind_candidates r cs g =
    if is_released r.state
    then (none, g)
    else if not (none_given cs) && g.hooked && str_eq r.statement_id ""
    then (some no_statement_id, g)
    else bound_or r (check_candidates r.id r.parts g.candidate_claims cs) g
