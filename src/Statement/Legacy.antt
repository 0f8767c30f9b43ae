-- ===== src/Statement/Legacy.antt =====
-- The parser for callers that accept only the legacy lane.
use housegate.Base.{◌≡◌, ◌↔◌, refl, ap, ◌∙◌, false, Bytes, [], ◌∷◌, Result, ok, err, sym, arith}
use housegate.Statement.{
  StatementId, ParseError, parse_statement_id, flat, is_laned, legacy_only,
  parse_legacy_statement_id,
}
use housegate.Statement.RoundTrip.{IsValid, flat-parse_statement_id, parse_statement_id-flat}
use housegate.Statement.Accepts.{parse_statement_id-IsValid}

not_laned : (lane : Bytes) (id : StatementId) → id.lane ≡ lane → is_laned id ≡ false → lane ≡ []
not_laned [] id e h = refl
not_laned (b ∷ l) id e h = cc

legacy_only-ok :
    (r : Result ParseError StatementId) (id : StatementId)
    → legacy_only r ≡ ok id
    → (r ≡ ok id) × (is_laned id ≡ false)
legacy_only-ok (err e) id h = cc
legacy_only-ok (ok j) id h = ground arith

-- `ParseLegacyStatementID` gives an id for a text exactly if the id is valid, has no lane, and the text
-- is its flat form: it refuses every laned id, and no valid id of the legacy lane.
pub parse_legacy_statement_id-exact :
    (t : Bytes) (id : StatementId)
    → (parse_legacy_statement_id t ≡ ok id) ↔ (IsValid id × (id.lane ≡ []) × (flat id ≡ t))
unfolding parse_legacy_statement_id
parse_legacy_statement_id-exact t id = (there, back)
  where
    there : legacy_only (parse_statement_id t) ≡ ok id → IsValid id × (id.lane ≡ []) × (flat id ≡ t)
    there h =
        let (parsed, unlaned) = legacy_only-ok (parse_statement_id t) id h in
        (
          parse_statement_id-IsValid t id parsed,
          not_laned id.lane id refl unlaned,
          flat-parse_statement_id t id parsed,
        )

    back : IsValid id × (id.lane ≡ []) × (flat id ≡ t) → legacy_only (parse_statement_id t) ≡ ok id
    back (v, e, f) =
        let parsed : parse_statement_id t ≡ ok id =
          ap parse_statement_id (sym f) ∙ parse_statement_id-flat id v in
        ap legacy_only parsed ∙ rw e refl
