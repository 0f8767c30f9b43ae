-- ===== src/Pressure/Observed.antt =====
-- What becomes of claims on exact parts (parts_pressure.go): given up with their reservation, seen by an
-- inventory, made durable by the hook, or retired.
use housegate.Base.{
  ℕ, Bool, true, false, not, ◌&&◌, ◌||◌, Option, none, some, List, [], ◌∷◌, String, str_eq, ◌==◌,
  if◌then◌else◌,
}
use housegate.Pressure.Scope.{PartsKey, has_text, PartsScope, covers, physical_table_name}
use housegate.Pressure.Maps.{get_or}
use housegate.Pressure.Guard.{Part, Reservation, Claim, Observation, Guard, find_handle, key_of}
use housegate.Pressure.Claims.{find_claim, put_claim, delete_claim, put_pending, delete_pending}

-- `releaseCandidateClaimsLocked`
abbrev pub release_found : ℕ → PartsKey → String → Option Claim → Guard → Guard
release_found id key name none g = g
release_found id key name (some c) g =
    if c.reservation == id
    then record g {
      pending_observed =
          delete_pending (record { statement_id = c.statement_id; candidate = c.candidate })
            g.pending_observed;
      candidate_claims = delete_claim key name g.candidate_claims;
    }
    else g

unfoldable pub release_names : ℕ → PartsKey → List String → Guard → Guard
unfolding find_claim delete_claim delete_pending
release_names id key [] g = g
release_names id key (name ∷ names) g =
    release_names id key names
      (release_found id key name (find_claim key name g.candidate_claims) g)

unfoldable pub release_claims : ℕ → List Part → Guard → Guard
unfolding release_names
release_claims id [] g = g
release_claims id (p ∷ ps) g = release_claims id ps (release_names id p.key p.candidate_parts g)

-- `reconcileCandidateClaimsLocked`, one claim at a time.
abbrev pub is_live : Option Reservation → Bool
is_live none = false
is_live (some r) = r.live

abbrev pub is_retired : Guard → Claim → Bool
is_retired g c =
    c.observed_active && c.observed_persisted && not (is_live (find_handle c.reservation g.handles))

abbrev pub observation_of : Claim → Observation
observation_of c = record { statement_id = c.statement_id; candidate = c.candidate }

-- What becomes of a claim, and of the pending observations.
abbrev pub claim_seen : Claim → List Observation → Option Claim × List Observation
claim_seen c os = (
  some (record c { observed_active = true }),
  if c.observed_persisted then os else put_pending (observation_of c) os,
)

abbrev pub claim_unseen : Guard → Claim → List Observation → Option Claim × List Observation
claim_unseen g c os =
    if is_retired g c then (none, delete_pending (observation_of c) os) else (some c, os)

unfoldable pub reconcile_claim :
    PartsScope → Guard → Claim → List Observation → Option Claim × List Observation
unfolding covers has_text put_pending delete_pending find_handle
reconcile_claim scope g c os =
    if not (covers scope c.key)
    then (some c, os)
    else if has_text c.name (get_or [] c.key g.active_parts)
    then claim_seen c os
    else claim_unseen g c os

abbrev pub claim_onto : Option Claim → List Claim → List Claim
claim_onto none cs = cs
claim_onto (some c) cs = c ∷ cs

unfoldable pub reconcile_each :
    PartsScope → Guard → List Claim → List Observation → List Claim × List Observation
unfolding reconcile_claim
reconcile_each scope g [] os = ([], os)
reconcile_each scope g (c ∷ cs) os =
    let (kept, os') = reconcile_claim scope g c os in
    let (rest, os'') = reconcile_each scope g cs os' in (claim_onto kept rest, os'')

unfoldable pub reconcile_claims : PartsScope → Guard → Guard
unfolding reconcile_each
reconcile_claims scope g =
    let (cs, os) = reconcile_each scope g g.candidate_claims g.pending_observed in
    record g { candidate_claims = cs; pending_observed = os }

-- `flushCandidateObservations`: the hook is called for one pending observation after the other until it
-- fails. The code takes them in the order of a map, which is any order.
abbrev pub persisted : Observation → Option Claim → List Claim → List Claim
persisted o none cs = cs
persisted o (some c) cs =
    if str_eq c.statement_id o.statement_id
    then put_claim (record c { observed_active = true; observed_persisted = true }) cs
    else cs

unfoldable pub mark_persisted : Observation → Guard → Guard
unfolding find_claim put_claim physical_table_name
mark_persisted o g =
    let key = key_of g (physical_table_name o.candidate.table_id) o.candidate.partition_id in
    record g {
      candidate_claims =
          persisted o (find_claim key o.candidate.part_name g.candidate_claims) g.candidate_claims;
    }

unfoldable pub flush_observations : (Observation → Bool) → List Observation → Guard → Bool × Guard
unfolding mark_persisted
flush_observations hook [] g = (true, record g { pending_observed = [] })
flush_observations hook (o ∷ os) g =
    let rest = flush_observations hook os (mark_persisted o g) in
    if not g.hooked || hook o then rest else (false, record g { pending_observed = o ∷ os })
