-- ===== src/Capacity/Metadata.antt =====
-- `validate_metadata` of the claim: the eight texts that a claim is made of.
use desktop_pc24x7_runtime.Prelude.{Bool, not, ◌&&◌, List, [], ◌∷◌, String, all}
use desktop_pc24x7_runtime.Json.{Json, get, is_text}
use desktop_pc24x7_runtime.Result.{Result, claim_error, raise_if, ◌>>◌}
use desktop_pc24x7_runtime.Capacity.Pattern.{is_sha, is_request_id, is_identifier}
use desktop_pc24x7_runtime.Capacity.Keys.{has_exactly, is_string, text_fits}

abbrev pub host : String
host = "DESKTOP-PDQK954"

abbrev pub metadata_keys : List String
metadata_keys =
    "request_id" ∷ "source_sha" ∷ "rules_sha" ∷ "issue_id" ∷ "issue_number" ∷ "run_id"
    ∷ "run_attempt" ∷ "host" ∷ []

abbrev pub require : Bool → String → Result (Unit {0})
require test reason = raise_if (not test) claim_error reason

-- type(data) is dict is in has_exactly.
unfoldable pub validate_metadata : Json → Result (Unit {0})
validate_metadata value = do
  require (has_exactly metadata_keys value) "CLAIM_FIELDS_INVALID"
  require (all (λ key. is_string (get key value)) metadata_keys) "CLAIM_TYPES_INVALID"
  require
      (text_fits is_request_id (get "request_id" value)
        && (text_fits is_sha (get "source_sha" value) && text_fits is_sha (get "rules_sha" value)))
      "CLAIM_IDENTITY_INVALID"
  require
      (all (λ key. text_fits is_identifier (get key value))
        ("issue_id" ∷ "issue_number" ∷ "run_id" ∷ []))
      "CLAIM_IDENTIFIERS_INVALID"
  require (is_text (get "run_attempt" value) "1" && is_text (get "host" value) host)
      "CLAIM_SCOPE_INVALID"
