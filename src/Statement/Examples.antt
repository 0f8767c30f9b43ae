-- ===== src/Statement/Examples.antt =====
-- Statement ids at concrete texts, and the theorems about them there.
use housegate.Base.{◌≡◌, ◌↔◌, refl, ap, [], ◌∷◌, Bytes, ok, err, inr, arith}
use housegate.Statement.{
  StatementId, bad_shape, bad_decimal, bad_nonce, all_digits, all_hex, is_lower_hex,
  is_decimal_digits, valid_client_lane, split_colons, is_account, value_from, parse_uint,
  has_outer_space, reversed_onto, parse_segments, parse_statement_id, flat, subject,
  parse_legacy_statement_id, legacy_only, client_lanes_not_enabled,
}
use housegate.Statement.Accepts.{parse_statement_id-IsValid}
use housegate.Statement.Legacy.{parse_legacy_statement_id-exact}
use housegate.Statement.Colons.{has_no_colon}
use housegate.Statement.RoundTrip.{IsValid, flat-parse_statement_id, parse_statement_id-flat}
use housegate.Statement.Subject.{subject-separates}

-- "0xab:42:n" and its parts
abbrev legacy_text : Bytes
legacy_text = 48 ∷ 120 ∷ 97 ∷ 98 ∷ 58 ∷ 52 ∷ 50 ∷ 58 ∷ 110 ∷ []

abbrev legacy : StatementId
legacy = record { account = 48 ∷ 120 ∷ 97 ∷ 98 ∷ []; lane = []; seq = 42; nonce = 110 ∷ [] }

-- lane "00ff00ff00ff00ff"
abbrev laned : StatementId
laned = record legacy {
  lane = 48 ∷ 48 ∷ 102 ∷ 102 ∷ 48 ∷ 48 ∷ 102 ∷ 102 ∷ 48 ∷ 48 ∷ 102 ∷ 102 ∷ 48 ∷ 48 ∷ 102 ∷ 102 ∷ [];
}

flat-parse_statement_id_example : flat legacy ≡ legacy_text
unfolding parse_statement_id split_colons parse_segments is_account is_lower_hex all_hex
    is_decimal_digits all_digits parse_uint value_from has_outer_space reversed_onto
flat-parse_statement_id_example = flat-parse_statement_id legacy_text legacy refl

laned-IsValid : IsValid laned
unfolding is_account is_lower_hex all_hex valid_client_lane has_no_colon has_outer_space
    reversed_onto
laned-IsValid = record {
  account = refl;
  lane = inr refl;
  positive = omega arith;
  fits = omega arith;
  nonce = refl;
  one_segment = refl;
  trimmed = refl;
}

-- Another statement of the same lane.
abbrev later : StatementId
later = record laned { seq = 43; nonce = 109 ∷ [] }

later-IsValid : IsValid later
unfolding has_no_colon has_outer_space reversed_onto
later-IsValid = record {
  account = laned-IsValid.account;
  lane = laned-IsValid.lane;
  positive = omega arith;
  fits = omega arith;
  nonce = refl;
  one_segment = refl;
  trimmed = refl;
}

parse_statement_id-flat_example : parse_statement_id (flat laned) ≡ ok laned
parse_statement_id-flat_example = parse_statement_id-flat laned laned-IsValid

subject-separates_example : (laned.account ≡ later.account) × (laned.lane ≡ later.lane)
unfolding subject
subject-separates_example = subject-separates laned later laned-IsValid later-IsValid refl

parse_statement_id-IsValid_example : IsValid legacy
unfolding parse_statement_id split_colons parse_segments is_account is_lower_hex all_hex
    is_decimal_digits all_digits parse_uint value_from has_outer_space reversed_onto
parse_statement_id-IsValid_example = parse_statement_id-IsValid legacy_text legacy refl

parse_legacy_statement_id-exact_example :
    (parse_legacy_statement_id legacy_text ≡ ok legacy)
    ↔ (IsValid legacy × (legacy.lane ≡ []) × (flat legacy ≡ legacy_text))
parse_legacy_statement_id-exact_example = parse_legacy_statement_id-exact legacy_text legacy

laned_is_refused : parse_legacy_statement_id (flat laned) ≡ err client_lanes_not_enabled
unfolding parse_legacy_statement_id
laned_is_refused = ap legacy_only (parse_statement_id-flat laned laned-IsValid)

-- A leading zero, two segments, and a nonce that ends with a no-break space.
refuses :
    (parse_statement_id (48 ∷ 120 ∷ 97 ∷ 58 ∷ 48 ∷ 50 ∷ 58 ∷ 110 ∷ []) ≡ err bad_decimal)
    × (parse_statement_id (48 ∷ 120 ∷ 97 ∷ 58 ∷ 50 ∷ []) ≡ err bad_shape)
    × (parse_statement_id (48 ∷ 120 ∷ 97 ∷ 58 ∷ 50 ∷ 58 ∷ 110 ∷ 194 ∷ 160 ∷ []) ≡ err bad_nonce)
unfolding parse_statement_id split_colons parse_segments is_account is_lower_hex all_hex
    is_decimal_digits all_digits parse_uint value_from has_outer_space reversed_onto
refuses = (refl, refl, refl)
