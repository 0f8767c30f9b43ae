-- ===== src/Statement/RoundTrip.antt =====
-- The flat form of a statement id and its parser undo each other.
use housegate.Base.{
  ℕ, ◌≡◌, ◌<◌, refl, sym, ap, ◌∙◌, true, false, List, [], ◌∷◌, ◌++◌, arith, ok, ltb, ◌==◌, Bytes,
  inl, inr, ◌⊎◌,
}
use housegate.Seq.Counter.{u64_mod}
use housegate.Statement.{
  StatementId, colon, all_digits, all_hex, is_empty, is_decimal_digits, is_lower_hex,
  valid_client_lane, split_colons, is_account, has_leading_zero, value_from, parse_uint,
  has_outer_space, parse_segments, parse_parts, parse_statement_id, format_uint, flat,
}
use housegate.Statement.Canonical.{
  format_uint-value_from, value_from-format_uint, all_digits-format_uint, leads, leads-format_uint,
}
use housegate.Statement.Colons.{
  join_colons, join_colons-split_colons, has_no_colon, split_colons-one, split_colons-append,
  has_no_colon-digits, has_no_colon-hex,
}

-- What the parser accepts of four segments.
record Accepted (account lane seq nonce : Bytes) (id : StatementId) : Type 0 where
  same : record { account = account; lane = lane; seq = value_from 0 seq; nonce = nonce } ≡ id
  digits : all_digits seq ≡ true
  canonical : has_leading_zero seq ≡ false
  positive : 0 < value_from 0 seq
  fits : value_from 0 seq < u64_mod

parse_segments-Accepted :
    (account lane seq nonce : Bytes) (id : StatementId)
    → parse_segments account lane seq nonce ≡ ok id
    → Accepted account lane seq nonce id
unfolding parse_segments parse_uint is_decimal_digits
parse_segments-Accepted account lane seq nonce id h = record {
  same = ground arith;
  digits = ground arith;
  canonical = ground arith;
  positive = ground arith;
  fits = ground arith;
}

written_seq :
    (account lane seq nonce : Bytes) (id : StatementId)
    → Accepted account lane seq nonce id
    → format_uint (value_from 0 seq) ≡ seq
written_seq account lane seq nonce id a =
    format_uint-value_from seq a.digits a.canonical a.positive a.fits

pub lane_there : (l : Bytes) → valid_client_lane l ≡ true → is_empty l ≡ false
unfolding valid_client_lane
lane_there [] h = cc
lane_there (b ∷ l) h = refl

legacy-flat :
    (a : Bytes) (m : ℕ) (n : Bytes)
    → flat (record { account = a; lane = []; seq = m; nonce = n })
      ≡ a ++ colon ∷ (format_uint m ++ colon ∷ n)
unfolding flat
legacy-flat a m n = refl

laned-flat :
    (a l : Bytes) (m : ℕ) (n : Bytes)
    → valid_client_lane l ≡ true
    → flat (record { account = a; lane = l; seq = m; nonce = n })
      ≡ a ++ colon ∷ (l ++ colon ∷ (format_uint m ++ colon ∷ n))
unfolding flat
laned-flat a l m n v = rw (lane_there l v)

parts-flat :
    (xs : List Bytes) (id : StatementId) → parse_parts xs ≡ ok id → flat id ≡ join_colons xs
unfolding join_colons
parts-flat [] id h = cc
parts-flat (a ∷ []) id h = cc
parts-flat (a ∷ b ∷ []) id h = cc
parts-flat (a ∷ s ∷ n ∷ []) id h =
    let got = parse_segments-Accepted a [] s n id h in
    ap flat (sym got.same)
    ∙ legacy-flat a (value_from 0 s) n
    ∙ ap (λ x. a ++ colon ∷ (x ++ colon ∷ n)) (written_seq a [] s n id got)
parts-flat (a ∷ l ∷ s ∷ n ∷ []) id h =
    let valid : valid_client_lane l ≡ true = ground arith in
    let parsed : parse_segments a l s n ≡ ok id = ground arith in
    let got = parse_segments-Accepted a l s n id parsed in
    ap flat (sym got.same)
    ∙ laned-flat a l (value_from 0 s) n valid
    ∙ ap (λ x. a ++ colon ∷ (l ++ colon ∷ (x ++ colon ∷ n))) (written_seq a l s n id got)
parts-flat (a ∷ l ∷ s ∷ n ∷ x ∷ xs) id h = cc

-- A text that `ParseStatementID` accepts is the flat form of the id that it gives.
pub flat-parse_statement_id :
    (s : Bytes) (id : StatementId) → parse_statement_id s ≡ ok id → flat id ≡ s
unfolding parse_statement_id
flat-parse_statement_id s id h = parts-flat (split_colons s) id h ∙ join_colons-split_colons s

-- An id that an agent may mint.
pub record IsValid (id : StatementId) : Type 0 where
  pub account : is_account id.account ≡ true
  pub lane : (id.lane ≡ []) ⊎ (valid_client_lane id.lane ≡ true)
  pub positive : 0 < id.seq
  pub fits : id.seq < u64_mod
  pub nonce : is_empty id.nonce ≡ false
  pub one_segment : has_no_colon id.nonce ≡ true
  pub trimmed : has_outer_space id.nonce ≡ false

pub account-has_no_colon : (a : Bytes) → is_account a ≡ true → has_no_colon a ≡ true
unfolding is_account has_no_colon is_lower_hex
account-has_no_colon [] h = refl
account-has_no_colon (b ∷ []) h = cc
account-has_no_colon (b ∷ c ∷ ds) h =
    let hex : all_hex ds ≡ true = ground (arith, h) in
    let free = has_no_colon-hex ds hex in ground (arith, h, free)

pub lane-has_no_colon : (l : Bytes) → valid_client_lane l ≡ true → has_no_colon l ≡ true
unfolding valid_client_lane is_lower_hex
lane-has_no_colon l h = has_no_colon-hex l (ground (arith, h))

account_there : (a : Bytes) → is_account a ≡ true → is_empty a ≡ false
unfolding is_account
account_there [] h = cc
account_there (b ∷ []) h = refl
account_there (b ∷ c ∷ ds) h = refl

leads-canonical : (s : Bytes) → leads s ≡ true → (has_leading_zero s ≡ false) × (is_empty s ≡ false)
leads-canonical [] h = cc
leads-canonical (b ∷ []) h = (refl, refl)
leads-canonical (b ∷ c ∷ s) h = (ground (arith, h), refl)

module _ (id : StatementId) (v : IsValid id) where
  valid_segments :
      parse_segments id.account id.lane (format_uint id.seq) id.nonce
      ≡ ok (record { account = id.account; lane = id.lane; seq = id.seq; nonce = id.nonce })
  unfolding parse_segments parse_uint is_decimal_digits
  valid_segments =
      let (canonical, there) =
        leads-canonical (format_uint id.seq) (leads-format_uint id.seq v.positive v.fits) in
      let account = account_there id.account v.account in
      let digits = all_digits-format_uint id.seq in
      let value = value_from-format_uint id.seq v.fits in
      let small : ltb id.seq u64_mod ≡ true = ground (arith, v.fits) in
      let some_seq : (id.seq == 0) ≡ false = ground (arith, v.positive) in
      simp
        (account, there, v.nonce, v.account, canonical, digits, value, small, some_seq, v.trimmed)

  legacy_segments :
      id.lane ≡ [] → split_colons (flat id) ≡ id.account ∷ format_uint id.seq ∷ id.nonce ∷ []
  unfolding flat
  legacy_segments e =
      let seq = has_no_colon-digits (format_uint id.seq) (all_digits-format_uint id.seq) in
      rw e (
        split_colons-append id.account _ (account-has_no_colon id.account v.account)
        ∙ ap (λ r. id.account ∷ r) (split_colons-append (format_uint id.seq) id.nonce seq)
        ∙ ap (λ r. id.account ∷ format_uint id.seq ∷ r) (split_colons-one id.nonce v.one_segment))

  laned_segments :
      valid_client_lane id.lane ≡ true
      → split_colons (flat id) ≡ id.account ∷ id.lane ∷ format_uint id.seq ∷ id.nonce ∷ []
  unfolding flat
  laned_segments e =
      let seq = has_no_colon-digits (format_uint id.seq) (all_digits-format_uint id.seq) in
      rw (lane_there id.lane e) (
        split_colons-append id.account _ (account-has_no_colon id.account v.account)
        ∙ ap (λ r. id.account ∷ r) (split_colons-append id.lane _ (lane-has_no_colon id.lane e))
        ∙ ap (λ r. id.account ∷ id.lane ∷ r) (split_colons-append (format_uint id.seq) id.nonce seq)
        ∙ ap (λ r. id.account ∷ id.lane ∷ format_uint id.seq ∷ r)
            (split_colons-one id.nonce v.one_segment))

-- `ParseStatementID` reads the flat form of an id back, if its account is "0x" and lower-case
-- hexadecimal digits, its lane is empty or a client lane, its seq a uint64 that is not zero, and its
-- nonce a text without a colon or outer space that is not empty.
pub parse_statement_id-flat : (id : StatementId) → IsValid id → parse_statement_id (flat id) ≡ ok id
unfolding parse_statement_id
parse_statement_id-flat id v = elim v.lane [
  | inl e ↦
      ap parse_parts (legacy_segments id v e)
      ∙ ap (λ l. parse_segments id.account l (format_uint id.seq) id.nonce) (sym e)
      ∙ valid_segments id v
  | inr e ↦ ap parse_parts (laned_segments id v e) ∙ rw e (valid_segments id v)
]
