-- ===== src/Intake/Ack2/Gate.antt =====
-- The gate of pkg/storageintegrity/ack2_gate.go.
use housegate.Base.{
  ◌≡◌, ◌≢◌, ◌↔◌, refl, sym, subst, true, false, none, Bool-cases, inl, inr, arith, String, str_eq,
  str_eq→eq, str_eq_refl,
}
use housegate.Intake.Outcomes.{
  Lifecycle, blank, preparing, unsafe_written, submit_accepted, ack2, abort_pending, cleaned,
  rc_bound, is_rc_bound, Ack2Inputs, ack2_ready, permits_ack2,
}

-- What an open gate proves of its inputs.
pub record IsOpen (i : Ack2Inputs) : Type 0 where
  pub durable : i.payload_durable ≡ true
  pub done : i.unsafe_write_done ≡ true
  pub submitted : permits_ack2 i.submit.category ≡ true
  pub claimed : permits_ack2 i.claim.category ≡ true
  pub same_source : i.claim.bound_source ≡ i.prepared_source
  pub named : i.claim.bound_source ≢ ""
  pub bound : i.journal_lifecycle ≡ rc_bound

rc_bound_unique : (l : Lifecycle) → is_rc_bound l ≡ true → l ≡ rc_bound
rc_bound_unique rc_bound h = refl
rc_bound_unique blank h = cc
rc_bound_unique preparing h = cc
rc_bound_unique unsafe_written h = cc
rc_bound_unique submit_accepted h = cc
rc_bound_unique ack2 h = cc
rc_bound_unique abort_pending h = cc
rc_bound_unique cleaned h = cc

not_equal : (s t : String) → str_eq s t ≡ false → s ≢ t
not_equal s t h e =
    let same : str_eq s t ≡ true = subst (λ x. str_eq s x ≡ true) e (str_eq_refl s) in cc

-- The gate opens only when every condition of the design holds.
pub ack2_ready-IsOpen : (i : Ack2Inputs) → ack2_ready i ≡ none → IsOpen i
unfolding ack2_ready
ack2_ready-IsOpen i h =
    let same : str_eq i.prepared_source i.claim.bound_source ≡ true = ground arith in
    let named : str_eq i.claim.bound_source "" ≡ false = ground arith in
    record {
      durable = ground arith;
      done = ground arith;
      submitted = ground arith;
      claimed = ground arith;
      same_source = sym (str_eq→eq _ _ same);
      named = not_equal _ _ named;
      bound = rc_bound_unique i.journal_lifecycle (ground arith);
    }

not_equal_test : (s t : String) → s ≢ t → str_eq s t ≡ false
not_equal_test s t h = elim (Bool-cases (str_eq s t)) [
  | inl e ↦ absurd (h (str_eq→eq s t e))
  | inr e ↦ e
]

IsOpen-ack2_ready : (i : Ack2Inputs) → IsOpen i → ack2_ready i ≡ none
unfolding ack2_ready
IsOpen-ack2_ready i o =
    let same : str_eq i.prepared_source i.claim.bound_source ≡ true =
      subst (λ x. str_eq x i.claim.bound_source ≡ true) o.same_source
        (str_eq_refl i.claim.bound_source) in
    let bound : str_eq i.claim.bound_source "" ≡ false = not_equal_test _ _ o.named in
    let prepared : str_eq i.prepared_source "" ≡ false =
      subst (λ x. str_eq x "" ≡ false) o.same_source bound in
    let stage : is_rc_bound i.journal_lifecycle ≡ true =
      subst (λ x. is_rc_bound x ≡ true) (sym o.bound) refl in
    ground (arith, same, bound, prepared, stage, o.durable, o.done, o.submitted, o.claimed)

-- `Ack2Ready` opens exactly when the payload is durable, the unsafe write done, the submission and the
-- claim accepted, the claim bound to the named source that prepared, and the journal at `RCBound`.
pub ack2_ready-exact : (i : Ack2Inputs) → (ack2_ready i ≡ none) ↔ IsOpen i
ack2_ready-exact i = (ack2_ready-IsOpen i, IsOpen-ack2_ready i)
