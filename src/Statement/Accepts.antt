-- ===== src/Statement/Accepts.antt =====
-- What the ids that the parser gives have in common.
use housegate.Base.{
  ℕ, ◌≡◌, refl, subst, Bool, true, false, ◌&&◌, List, [], ◌∷◌, arith, ok, ◌==◌, Bytes, inl, inr,
  ◌⊎◌, if_ind,
}
use housegate.Statement.{
  StatementId, colon, onto_first, valid_client_lane, split_colons, value_from, parse_uint,
  parse_segments, parse_parts, parse_statement_id,
}
use housegate.Statement.Colons.{has_no_colon}
use housegate.Statement.RoundTrip.{IsValid}

-- No segment has a colon.
unfoldable all_free : List Bytes → Bool
unfolding has_no_colon
all_free [] = true
all_free (s ∷ ss) = has_no_colon s && all_free ss

all_free-onto_first :
    (b : ℕ) (ss : List Bytes)
    → (b == colon) ≡ false
    → all_free ss ≡ true
    → all_free (onto_first b ss) ≡ true
unfolding all_free has_no_colon
all_free-onto_first b [] other h = rw other
all_free-onto_first b (s ∷ ss) other h = rw other h

all_free-split_colons : (s : Bytes) → all_free (split_colons s) ≡ true
unfolding all_free split_colons has_no_colon
all_free-split_colons [] = refl
all_free-split_colons (b ∷ s) =
    let rest = all_free-split_colons s in
    if_ind (λ r. all_free r ≡ true) (b == colon) (λ _. rest)
      (λ other. all_free-onto_first b (split_colons s) other rest)

-- The nonce of an id that the last segments give.
segments-IsValid :
    (account lane seq nonce : Bytes) (id : StatementId)
    → (lane ≡ []) ⊎ (valid_client_lane lane ≡ true)
    → has_no_colon nonce ≡ true
    → parse_segments account lane seq nonce ≡ ok id
    → IsValid id
unfolding parse_segments parse_uint
segments-IsValid account lane seq nonce id there free h =
    let value = value_from 0 seq in
    let same : record { account = account; lane = lane; seq = value; nonce = nonce } ≡ id =
      ground arith in
    let valid : IsValid (record { account = account; lane = lane; seq = value; nonce = nonce }) =
      record {
        account = ground arith;
        lane = there;
        positive = ground arith;
        fits = ground arith;
        nonce = ground arith;
        one_segment = free;
        trimmed = ground arith;
      } in
    subst IsValid same valid

parts-IsValid :
    (ss : List Bytes) (id : StatementId) → all_free ss ≡ true → parse_parts ss ≡ ok id → IsValid id
unfolding all_free
parts-IsValid [] id free h = cc
parts-IsValid (a ∷ []) id free h = cc
parts-IsValid (a ∷ b ∷ []) id free h = cc
parts-IsValid (a ∷ s ∷ n ∷ []) id free h =
    segments-IsValid a [] s n id (inl refl) (ground (arith, free)) h
parts-IsValid (a ∷ l ∷ s ∷ n ∷ []) id free h =
    let valid : valid_client_lane l ≡ true = ground arith in
    let parsed : parse_segments a l s n ≡ ok id = ground arith in
    segments-IsValid a l s n id (inr valid) (ground (arith, free)) parsed
parts-IsValid (a ∷ l ∷ s ∷ n ∷ x ∷ xs) id free h = cc

-- An id that `ParseStatementID` gives is valid: its account is "0x" and lower-case hexadecimal digits,
-- its lane is empty or a client lane, its seq a uint64 that is not zero, and its nonce a text without a
-- colon or outer space that is not empty.
pub parse_statement_id-IsValid :
    (s : Bytes) (id : StatementId) → parse_statement_id s ≡ ok id → IsValid id
unfolding parse_statement_id
parse_statement_id-IsValid s id h = parts-IsValid (split_colons s) id (all_free-split_colons s) h
