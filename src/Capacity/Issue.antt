-- ===== src/Capacity/Issue.antt =====
-- One issue as a capacity request: `parse`, `identity`, `timestamp` and `validate_issue` of the admission.
use Prim.Native.Char.{code}
use Prim.Native.String.{count}
use desktop_pc24x7_runtime.Prelude.{
  ℕ, ◌+◌, ◌*◌, Bool, true, false, not, ◌&&◌, Option, none, some, List, [], ◌∷◌, String, ltb, leb,
  eqb, all, if◌then◌else◌,
}
use desktop_pc24x7_runtime.Json.{Json, text, num, get, has_key, is_dict, is_text}
use desktop_pc24x7_runtime.Result.{Result, ok, raise, raise_if, other_error, ◌>>=◌, ◌>>◌}
use desktop_pc24x7_runtime.Text.{Python, Stamp, second, replace_z}
use desktop_pc24x7_runtime.Capacity.Pattern.{is_sha, is_request_id, is_time}
use desktop_pc24x7_runtime.Capacity.Keys.{has_exactly, is_string, text_fits, is_unique}
use desktop_pc24x7_runtime.Capacity.Equal.{equals}

abbrev pub owner : String
owner = "ericson-j-santos"

abbrev pub owner_id : ℕ
owner_id = 60470500

abbrev pub scope : String
scope = "READ_ONLY_CAPACITY_NO_INSTALL"

abbrev pub consent : String
consent = "RISK2_AUDIT_ONLY_AT_MOST_ONCE"

abbrev pub title : String
title = "Desktop capacity read-only request v1"

abbrev pub text_keys : List String
text_keys = "request_id" ∷ "expected_head_sha" ∷ "expected_rules_sha" ∷ "scope" ∷ "audit_claim" ∷ []

-- MAX_AGE, in microseconds.
abbrev pub max_age : ℕ
max_age = 300 * second

abbrev pub require : Bool → String → Result (Unit {0})
require test reason = raise_if (not test) (other_error "AdmissionError") reason

abbrev pub is_ascii : String → Bool
is_ascii String.[] = true
is_ascii (String.◌∷◌ c s) = ltb (code c) 128 && is_ascii s

-- isinstance(body, str) and 0 < len(body) <= 2048 and body.isascii()
abbrev is_body : String → Bool
is_body body = ltb 0 (count body) && (leb (count body) 2048 && is_ascii body)

-- type(value) is int and value == n
abbrev pub is_int : ℕ → Json → Bool
is_int n (num m) = eqb m n
is_int n _ = false

-- type(value) is int and value > 0
abbrev pub is_positive : Json → Bool
is_positive (num n) = ltb 0 n
is_positive _ = false

-- What json.loads returned for the body; a DUPLICATE_FIELD of `pairs` is a ValueError, so it ends as
-- BODY_INVALID too.
abbrev pub unique_or_raise : Option Json → Result Json
unique_or_raise none = raise (other_error "AdmissionError") "BODY_INVALID"
unique_or_raise (some request) =
    if is_unique request then ok request else raise (other_error "AdmissionError") "BODY_INVALID"

unfoldable pub check_request : Json → Result Json
check_request request = do
  require (has_exactly ("schema" ∷ text_keys) request) "FIELDS_INVALID"
  require (is_int 1 (get "schema" request)) "SCHEMA_INVALID"
  require (all (λ key. is_string (get key request)) text_keys) "FIELD_TYPE_INVALID"
  require (text_fits is_request_id (get "request_id" request)) "REQUEST_ID_INVALID"
  require
      (text_fits is_sha (get "expected_head_sha" request)
        && text_fits is_sha (get "expected_rules_sha" request))
      "SHA_INVALID"
  require (is_text (get "scope" request) scope && is_text (get "audit_claim" request) consent)
      "SCOPE_INVALID"
  ok request

-- str of a value that is a text.
abbrev pub string_of : Json → String
string_of (text s) = s
string_of _ = ""

-- `loads` is json.loads that keeps a key that comes twice; none is its ValueError.
unfoldable pub parse : (String → Option Json) → Json → Result Json
unfolding check_request
parse loads body = do
  require (text_fits is_body body) "BODY_INVALID"
  request ← unique_or_raise (loads (string_of body))
  check_request request

unfoldable pub identity : Json → Bool
identity user =
    is_dict user
    && (is_text (get "login" user) owner
        && (is_int owner_id (get "id" user) && is_text (get "type" user) "User"))

abbrev instant_or_raise : Option Stamp → Result ℕ
instant_or_raise none = raise (other_error "AdmissionError") "TIME_INVALID"
instant_or_raise (some stamp) = ok stamp.instant

-- In microseconds. The text names its zone, so the stamp is aware; an instant before 1970 stands as 0, and
-- is stale like it.
unfoldable pub timestamp : Python → Json → Result ℕ
timestamp python value = do
  require (text_fits is_time value) "TIME_INVALID"
  instant_or_raise (python.fromisoformat (replace_z (string_of value)))

-- `now` in microseconds.
unfoldable pub validate_issue : Python → (String → Option Json) → Json → ℕ → Result Json
unfolding timestamp parse identity
validate_issue python loads issue now = do
  require
      (is_dict issue && (not (has_key "pull_request" issue) && is_text (get "state" issue) "open"))
      "ISSUE_INVALID"
  require (is_positive (get "id" issue) && is_positive (get "number" issue)) "ISSUE_ID_INVALID"
  require (identity (get "user" issue)) "AUTHOR_INVALID"
  require
      (is_text (get "title" issue) title
        && equals (get "updated_at" issue) (get "created_at" issue))
      "ISSUE_EDITED"
  created ← timestamp python (get "created_at" issue)
  require (leb created now && leb now (created + max_age)) "ISSUE_STALE"
  parse loads (get "body" issue)
