-- ===== src/Statement.antt =====
-- Statement ids (pkg/storageintegrity/statementid.go): the structured identity and its flat form, over
-- byte strings. What the parser uses of strings and strconv is written out.
pub mod Decimal
pub mod Canonical
pub mod Colons
pub mod RoundTrip
pub mod Subject
pub mod Accepts
pub mod Legacy
mod Examples
use housegate.Base.{
  ℕ, zero, suc, ◌+◌, ◌-◌, ◌*◌, ◌/◌, ◌%◌, ◌^◌, Bool, true, false, not, ◌&&◌, ◌||◌, Option, none,
  some, List, [], ◌∷◌, ◌++◌, Result, ok, err, ltb, leb, ◌==◌, if◌then◌else◌, length, Bytes,
  bytes_eq,
}
use housegate.Seq.Counter.{u64_mod}

-- `StatementID`; `lane` is empty for the legacy lane.
pub record StatementId : Type 0 where
  pub account : Bytes
  pub lane : Bytes
  pub seq : ℕ  -- uint64
  pub nonce : Bytes

pub data ParseError : Type 0 where
  bad_lane bad_shape bad_account bad_decimal bad_seq bad_nonce : ParseError

abbrev pub colon : ℕ
colon = 58

abbrev pub is_digit : ℕ → Bool
is_digit b = leb 48 b && leb b 57

-- `isDecimalDigits` and `isLowerHex`: the empty string is neither.
unfoldable pub all_digits : Bytes → Bool
all_digits [] = true
all_digits (b ∷ bs) = is_digit b && all_digits bs

abbrev pub is_hex_digit : ℕ → Bool
is_hex_digit b = is_digit b || (leb 97 b && leb b 102)

unfoldable pub all_hex : Bytes → Bool
all_hex [] = true
all_hex (b ∷ bs) = is_hex_digit b && all_hex bs

abbrev pub is_empty : Bytes → Bool
is_empty [] = true
is_empty (b ∷ bs) = false

unfoldable pub is_decimal_digits : Bytes → Bool
unfolding all_digits
is_decimal_digits s = not (is_empty s) && all_digits s

unfoldable pub is_lower_hex : Bytes → Bool
unfolding all_hex
is_lower_hex s = not (is_empty s) && all_hex s

-- `ValidClientLane`
unfoldable pub valid_client_lane : Bytes → Bool
unfolding is_lower_hex
valid_client_lane lane = (length lane == 16) && is_lower_hex lane

-- `strings.Split(flat, ":")`
abbrev pub onto_first : ℕ → List Bytes → List Bytes
onto_first b [] = (b ∷ []) ∷ []
onto_first b (x ∷ xs) = (b ∷ x) ∷ xs

unfoldable pub split_colons : Bytes → List Bytes
split_colons [] = [] ∷ []
split_colons (b ∷ bs) =
    let rest = split_colons bs in if b == colon then [] ∷ rest else onto_first b rest

-- The test of the account: lower case, "0x" and hexadecimal digits. On the bytes that the last test
-- lets through `strings.ToLower` changes nothing, so the first adds nothing and the error is one.
unfoldable pub is_account : Bytes → Bool
unfolding is_lower_hex
is_account [] = false
is_account (b ∷ []) = false
is_account (b ∷ c ∷ digits) = (b == 48) && (c == 120) && is_lower_hex digits

-- A decimal with a leading zero that is not all of it.
abbrev pub has_leading_zero : Bytes → Bool
has_leading_zero [] = false
has_leading_zero (b ∷ []) = false
has_leading_zero (b ∷ c ∷ bs) = b == 48

-- The number that digits are, after those that give `n`.
unfoldable pub value_from : ℕ → Bytes → ℕ
value_from n [] = n
value_from n (b ∷ bs) = value_from (n * 10 + (b - 48)) bs

-- `strconv.ParseUint(s, 10, 64)` of digits
unfoldable pub parse_uint : Bytes → Option ℕ
unfolding value_from
parse_uint s = let n = value_from 0 s in if ltb n u64_mod then some n else none

-- `strings.TrimSpace(s) != s`: the first or the last rune is a space, of ASCII or beyond it.
abbrev pub starts_with_space : Bytes → Bool
starts_with_space [] = false
starts_with_space (a ∷ []) = (a == 32) || (leb 9 a && leb a 13)
starts_with_space (a ∷ b ∷ []) =
    (a == 32) || (leb 9 a && leb a 13) || ((a == 194) && ((b == 133) || (b == 160)))
starts_with_space (a ∷ b ∷ c ∷ r) =
    (a == 32)
    || (leb 9 a && leb a 13)
    || ((a == 194) && ((b == 133) || (b == 160)))
    || ((a == 225) && (b == 154) && (c == 128))
    || ((a == 226)
        && (b == 128)
        && ((leb 128 c && leb c 138) || (c == 168) || (c == 169) || (c == 175)))
    || ((a == 226) && (b == 129) && (c == 159))
    || ((a == 227) && (b == 128) && (c == 128))

-- The same of a text that is read from its end.
abbrev pub ends_with_space : Bytes → Bool
ends_with_space [] = false
ends_with_space (a ∷ []) = (a == 32) || (leb 9 a && leb a 13)
ends_with_space (a ∷ b ∷ []) =
    (a == 32) || (leb 9 a && leb a 13) || ((b == 194) && ((a == 133) || (a == 160)))
ends_with_space (a ∷ b ∷ c ∷ r) =
    (a == 32)
    || (leb 9 a && leb a 13)
    || ((b == 194) && ((a == 133) || (a == 160)))
    || ((c == 225) && (b == 154) && (a == 128))
    || ((c == 226)
        && (b == 128)
        && ((leb 128 a && leb a 138) || (a == 168) || (a == 169) || (a == 175)))
    || ((c == 226) && (b == 129) && (a == 159))
    || ((c == 227) && (b == 128) && (a == 128))

unfoldable pub reversed_onto : Bytes → Bytes → Bytes
reversed_onto [] r = r
reversed_onto (b ∷ bs) r = reversed_onto bs (b ∷ r)

unfoldable pub has_outer_space : Bytes → Bool
unfolding reversed_onto
has_outer_space s = starts_with_space s || ends_with_space (reversed_onto s [])

-- `ParseStatementID` from its segments on.
abbrev pub parse_seq : Bytes → Bytes → Bytes → Option ℕ → Result ParseError StatementId
parse_seq account lane nonce none = err bad_seq
parse_seq account lane nonce (some seq) =
    if seq == 0
    then err bad_seq
    else if has_outer_space nonce
    then err bad_nonce
    else ok (record { account = account; lane = lane; seq = seq; nonce = nonce })

unfoldable pub parse_segments : Bytes → Bytes → Bytes → Bytes → Result ParseError StatementId
unfolding is_account is_decimal_digits parse_uint has_outer_space
parse_segments account lane seq nonce =
    if is_empty account || is_empty seq || is_empty nonce
    then err bad_shape
    else if not (is_account account)
    then err bad_account
    else if has_leading_zero seq || not (is_decimal_digits seq)
    then err bad_decimal
    else parse_seq account lane nonce (parse_uint seq)

abbrev pub parse_parts : List Bytes → Result ParseError StatementId
parse_parts [] = err bad_shape
parse_parts (a ∷ []) = err bad_shape
parse_parts (a ∷ b ∷ []) = err bad_shape
parse_parts (a ∷ s ∷ n ∷ []) = parse_segments a [] s n
parse_parts (a ∷ l ∷ s ∷ n ∷ []) =
    if not (valid_client_lane l) then err bad_lane else parse_segments a l s n
parse_parts (a ∷ l ∷ s ∷ n ∷ x ∷ xs) = err bad_shape

-- `ParseStatementID`
unfoldable pub parse_statement_id : Bytes → Result ParseError StatementId
unfolding split_colons
parse_statement_id flat = parse_parts (split_colons flat)

-- `strconv.FormatUint(n, 10)`: the digits before `r`, twenty at most for a uint64.
unfoldable pub digits_onto : ℕ → ℕ → Bytes → Bytes
digits_onto zero n r = r
digits_onto (suc f) n r =
    let digit = 48 + n % 10 in
    let rest = digits_onto f (n / 10) (digit ∷ r) in if n / 10 == 0 then digit ∷ r else rest

unfoldable pub format_uint : ℕ → Bytes
unfolding digits_onto
format_uint n = digits_onto 20 n []

-- `Flat`, `Subject` and `IsLaned`
unfoldable pub flat : StatementId → Bytes
flat id =
    if is_empty id.lane
    then id.account ++ colon ∷ (format_uint id.seq ++ colon ∷ id.nonce)
    else id.account ++ colon ∷ (id.lane ++ colon ∷ (format_uint id.seq ++ colon ∷ id.nonce))

unfoldable pub subject : StatementId → Bytes
subject id = if is_empty id.lane then id.account else id.account ++ colon ∷ id.lane

abbrev pub is_laned : StatementId → Bool
is_laned id = not (is_empty id.lane)

-- `ParseLegacyStatementID` and its error, `ErrClientLanesNotEnabled` or that of the parser.
pub data LegacyError : Type 0 where
  invalid : ParseError → LegacyError
  client_lanes_not_enabled : LegacyError

abbrev pub legacy_only : Result ParseError StatementId → Result LegacyError StatementId
legacy_only (err e) = err (invalid e)
legacy_only (ok id) = if is_laned id then err client_lanes_not_enabled else ok id

unfoldable pub parse_legacy_statement_id : Bytes → Result LegacyError StatementId
parse_legacy_statement_id flat = legacy_only (parse_statement_id flat)
