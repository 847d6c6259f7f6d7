-- ===== src/Capacity/Claim/Request.antt =====
-- What `main` of the claim takes from the environment, and how it compares it with the admission.
use desktop_pc24x7_runtime.Prelude.{Bool, ◌&&◌, Option, none, some, [], ◌∷◌, String, lookup}
use desktop_pc24x7_runtime.Json.{Json, text, object, get}
use desktop_pc24x7_runtime.Result.{Result, ok, raise, key_error, ◌>>=◌, ◌>>◌}
use desktop_pc24x7_runtime.Capacity.Issue.{string_of}
use desktop_pc24x7_runtime.Capacity.Event.{Environment, env_is}
use desktop_pc24x7_runtime.Capacity.Metadata.{host, require}

abbrev pub found_or_raise : Option String → String → Result String
found_or_raise none key = raise key_error key
found_or_raise (some value) key = ok value

-- os.environ[key]
unfoldable pub environ : Environment → String → Result String
unfolding lookup
environ env key = found_or_raise (lookup key env) key

-- The comparison of the admitted request with the environment.
abbrev pub is_admitted : Json → Environment → Bool
is_admitted request env =
    env_is env "CAPACITY_REQUEST_ID" (string_of (get "request_id" request))
    && (env_is env "EXPECTED_HEAD" (string_of (get "expected_head_sha" request))
        && (env_is env "EXPECTED_RULES" (string_of (get "expected_rules_sha" request))
            && (env_is env "CAPACITY_ISSUE_ID" (string_of (get "issue_id" request))
                && env_is env "CAPACITY_ISSUE_NUMBER" (string_of (get "issue_number" request)))))

abbrev pub metadata_of : String → String → String → String → String → String → String → Json
metadata_of request source rules issue issue_number run attempt = object (
    ("request_id", text request)
    ∷ ("source_sha", text source)
    ∷ ("rules_sha", text rules)
    ∷ ("issue_id", text issue)
    ∷ ("issue_number", text issue_number)
    ∷ ("run_id", text run)
    ∷ ("run_attempt", text attempt)
    ∷ ("host", text host)
    ∷ [])

-- The audit root is named by LOCALAPPDATA.
unfoldable pub claim_metadata : Json → Environment → Result Json
unfolding environ lookup
claim_metadata request env = do
  require (is_admitted request env) "ADMITTED_REQUEST_CHANGED"
  base ← environ env "LOCALAPPDATA"
  request_id ← environ env "CAPACITY_REQUEST_ID"
  source ← environ env "EXPECTED_HEAD"
  rules ← environ env "EXPECTED_RULES"
  issue ← environ env "CAPACITY_ISSUE_ID"
  issue_number ← environ env "CAPACITY_ISSUE_NUMBER"
  run ← environ env "GITHUB_RUN_ID"
  attempt ← environ env "GITHUB_RUN_ATTEMPT"
  ok (metadata_of request_id source rules issue issue_number run attempt)
