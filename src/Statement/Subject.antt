-- ===== src/Statement/Subject.antt =====
-- The accumulator key of a statement id tells its account and lane.
use housegate.Base.{◌≡◌, sym, ap, ◌∙◌, List, [], ◌∷◌, Bytes, inl, inr}
use housegate.Statement.{StatementId, split_colons, subject}
use housegate.Statement.Colons.{split_colons-one, split_colons-append}
use housegate.Statement.RoundTrip.{IsValid, account-has_no_colon, lane-has_no_colon, lane_there}

-- The account and the lane that a split key has.
abbrev read_subject : List Bytes → Bytes × Bytes
read_subject [] = ([], [])
read_subject (a ∷ []) = (a, [])
read_subject (a ∷ l ∷ []) = (a, l)
read_subject (a ∷ l ∷ x ∷ xs) = ([], [])

read_subject-subject :
    (id : StatementId)
    → IsValid id
    → read_subject (split_colons (subject id)) ≡ (id.account, id.lane)
unfolding subject
read_subject-subject id v = elim v.lane [
  | inl e ↦
      rw e
        (ap read_subject (split_colons-one id.account (account-has_no_colon id.account v.account)))
  | inr e ↦ rw (lane_there id.lane e) (
      ap read_subject (
        split_colons-append id.account id.lane (account-has_no_colon id.account v.account)
        ∙ ap (λ r. id.account ∷ r) (split_colons-one id.lane (lane-has_no_colon id.lane e))))
]

-- Two ids of the form that `ParseStatementID` reads back with the same `Subject` have the same account
-- and the same lane.
pub subject-separates :
    (i j : StatementId)
    → IsValid i
    → IsValid j
    → subject i ≡ subject j
    → (i.account ≡ j.account) × (i.lane ≡ j.lane)
subject-separates i j v w e =
    let both : (i.account, i.lane) ≡ (j.account, j.lane) =
      sym (read_subject-subject i v)
      ∙ ap (λ s. read_subject (split_colons s)) e
      ∙ read_subject-subject j w in
    (ap (λ p. p.0) both, ap (λ p. p.1) both)
