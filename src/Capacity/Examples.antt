-- ===== src/Capacity/Examples.antt =====
-- One request on its way: the admission, the claim by two processes, and the look at the claim.
use Prim.Native.String.{◌++◌}
use desktop_pc24x7_runtime.Prelude.{
  ℕ, ◌*◌, ◌≤◌, ◌≡◌, ◌⊎◌, refl, true, false, Option, none, some, List, [], ◌∷◌, String, ◌==◌,
  if◌then◌else◌, lookup, insert, eqb,
}
use desktop_pc24x7_runtime.Json.{
  Fields, end, field, obj, Json, bool, num, text, object, get, field_of, has_field, has_key,
}
use desktop_pc24x7_runtime.Result.{ok}
use desktop_pc24x7_runtime.Text.{Python, second}
use desktop_pc24x7_runtime.Capacity.Pattern.{
  is_sha, is_request_id, is_identifier, is_time, fits, at_most,
}
use desktop_pc24x7_runtime.Capacity.Keys.{is_unique}
use desktop_pc24x7_runtime.Capacity.Equal.{equals}
use desktop_pc24x7_runtime.Capacity.Issue.{validate_issue, owner, owner_id, scope, consent, title}
use desktop_pc24x7_runtime.Capacity.Event.{Environment, check_event, repository_name}
use desktop_pc24x7_runtime.Capacity.Head.{head_of, check_heads}
use desktop_pc24x7_runtime.Capacity.Admission.{
  Site, assess, validate_now, main_path, rules_path, admission,
}
use desktop_pc24x7_runtime.Capacity.Admission.Admitted.{IsAdmitted, assess-IsAdmitted}
use desktop_pc24x7_runtime.Capacity.Metadata.{host, validate_metadata}
use desktop_pc24x7_runtime.Capacity.File.{Info, ordinary}
use desktop_pc24x7_runtime.Capacity.Claim.{Claims, Checks, claim, request_of, receipt_of}
use desktop_pc24x7_runtime.Capacity.Claim.Once.{
  Action, begins, writes, reads, stops, run, start, count,
}
use desktop_pc24x7_runtime.Capacity.Claim.Once.Exclusive.{claim-once}
use desktop_pc24x7_runtime.Capacity.Claim.Durable.{claim-durable}
use desktop_pc24x7_runtime.Capacity.Claim.Request.{claim_metadata}
use desktop_pc24x7_runtime.Capacity.Claim.Main.{main, Machine}
use desktop_pc24x7_runtime.Capacity.Claim.Composed.{IsAdmittedClaim, main-IsAdmittedClaim}
use desktop_pc24x7_runtime.Capacity.Status.{
  original_request_id, original_source_sha, original_rules_sha, receipt, Look, inspect,
  read_claim_file, check_receipt, names_original,
}
use desktop_pc24x7_runtime.Capacity.Status.Present.{IsPresent, inspect-answers}
use desktop_pc24x7_runtime.Capacity.Status.AfterClaim.{IsCalm, original, claim-inspect}

abbrev request : Json
request = object (
    ("schema", num 1)
    ∷ ("request_id", text original_request_id)
    ∷ ("expected_head_sha", text original_source_sha)
    ∷ ("expected_rules_sha", text original_rules_sha)
    ∷ ("scope", text scope)
    ∷ ("audit_claim", text consent)
    ∷ [])

abbrev original_claim : Json
original_claim = original "5" "9" "1"

-- json.dumps of a flat dict of texts, truth values and the number 1.
abbrev dump_value : Json → String
dump_value (text s) = "\"" ++ (s ++ "\"")
dump_value (bool b) = if b then "true" else "false"
dump_value (num n) = "1"
dump_value _ = "null"

abbrev dump_fields : Fields → String
dump_fields end = ""
dump_fields (field k v end) = "\"" ++ (k ++ ("\": " ++ dump_value v))
dump_fields (field k v fields) =
    "\"" ++ (k ++ ("\": " ++ (dump_value v ++ (", " ++ dump_fields fields))))

abbrev dumps : Json → String
dumps (obj fields) = "{" ++ (dump_fields fields ++ "}")
dumps value = dump_value value

abbrev stored : String
stored = dumps (receipt_of original_claim)

-- What Python prints.
stored_text :
    stored
    ≡ "{\"audit_state_changed\": true, \"configuration_changed\": false, \"host\": \"DESKTOP-PDQK954\", \"issue_id\": \"5\", \"issue_number\": \"128\", \"request_id\": \"d8b7342a-fc1e-445e-82af-2f6ae2319728\", \"rules_sha\": \"11e2e86d0283e83247d8058d05bbabe3dd7cc2c2\", \"run_attempt\": \"1\", \"run_id\": \"9\", \"schema\": 1, \"source_sha\": \"8aa192cbf7712c1da72a4b37dcb3ad3693ae5130\", \"state\": \"CLAIMED_UNCERTAIN\"}"
stored_text = refl

-- The body of the issue is named by the letter r.
abbrev loads : String → Option Json
loads s =
    if s == "r"
    then some request
    else if s == stored
    then some (receipt_of original_claim)
    else none

abbrev str : Json → String
str (num n) = if eqb n 128 then "128" else "5"
str _ = ""

abbrev python : Python
python = record {
  str = str;
  casefold = λ s. s;
  upper = λ s. s;
  strip = λ s. s;
  fromisoformat = λ s. some (record { aware = true; instant = 1000 * second });
  isoformat = λ n. "1970-01-01T00:16:40+00:00";
  isalnum = λ c. true;
}

abbrev user : Json
user = object (("login", text owner) ∷ ("id", num owner_id) ∷ ("type", text "User") ∷ [])

abbrev issue : Json
issue = object (
    ("id", num 5)
    ∷ ("number", num 128)
    ∷ ("state", text "open")
    ∷ ("user", user)
    ∷ ("title", text title)
    ∷ ("body", text "r")
    ∷ ("created_at", text "1970-01-01T00:16:40Z")
    ∷ ("updated_at", text "1970-01-01T00:16:40Z")
    ∷ [])

abbrev event : Json
event = object (
    ("action", text "opened")
    ∷ ("sender", user)
    ∷ (
      "repository",
      object (
          ("full_name", text repository_name)
          ∷ ("default_branch", text "main")
          ∷ ("private", bool false)
          ∷ ("owner", user)
          ∷ []),
    )
    ∷ ("issue", issue)
    ∷ [])

abbrev env : Environment
env =
    ("GITHUB_EVENT_NAME", "issues")
    ∷ ("GITHUB_REPOSITORY", repository_name)
    ∷ ("GITHUB_REF", "refs/heads/main")
    ∷ ("GITHUB_ACTOR", owner)
    ∷ ("GITHUB_TRIGGERING_ACTOR", owner)
    ∷ ("GITHUB_ACTOR_ID", "60470500")
    ∷ ("GITHUB_RUN_ATTEMPT", "1")
    ∷ ("GITHUB_RUN_ID", "9")
    ∷ ("GITHUB_SHA", original_source_sha)
    ∷ ("CAPACITY_REQUEST_ID", original_request_id)
    ∷ ("EXPECTED_HEAD", original_source_sha)
    ∷ ("EXPECTED_RULES", original_rules_sha)
    ∷ ("CAPACITY_ISSUE_ID", "5")
    ∷ ("CAPACITY_ISSUE_NUMBER", "128")
    ∷ ("LOCALAPPDATA", "C:")
    ∷ []

abbrev branch : String → Json
branch sha = object (("commit", object (("sha", text sha) ∷ [])) ∷ [])

-- The world is the clock, in microseconds; it goes on by a second at each look.
abbrev site : Site ℕ
site = record {
  fetch = λ path now. (
    ok (
        if path == main_path
        then branch original_source_sha
        else if path == rules_path
        then branch original_rules_sha
        else issue),
    now,
  );
  now = λ now. (now, second * 1001);
}

abbrev admitted : Json
admitted = admission python loads site env issue request

abbrev checks : Checks
checks = record {
  enter = ok tt;
  verify = ok tt;
  write = ok tt;
  torn = "";
  is_regular = true;
  reopen = ok true;
  leave = ok tt;
}

-- Two processes claim the request; the first is cut off once and begins again.
abbrev schedule : List Action
schedule =
    begins 0 checks original_claim
    ∷ begins 1 checks original_claim
    ∷ writes 0 checks
    ∷ stops 0
    ∷ begins 0 checks original_claim
    ∷ reads 1 checks
    ∷ []

abbrev claims_after : Claims
claims_after = (original_request_id, stored) ∷ []

abbrev no_claims : Claims
no_claims = []

abbrev machine : Machine
machine = record { hostname = host; os_name = "nt" }

abbrev info : Info
info = record {
  is_link = false;
  is_reparse = false;
  is_directory = false;
  is_regular = true;
  links = 1;
  size = 375;
  device = 3;
  inode = 4;
}

abbrev look : Look
look = record {
  hostname = host;
  system = "Windows";
  enter = ok tt;
  lstat = ok (some info);
  verify = ok tt;
  opened = info;
  opened_after = info;
  raw = stored;
  lstat_after = ok info;
  leave = ok tt;
}

abbrev present : Json
present = receipt "CLAIM_PRESENT_UNCERTAIN" true

calm : IsCalm python look info
unfolding ordinary
calm = record {
  hostname = refl;
  system = refl;
  enter = refl;
  lstat = refl;
  before = refl;
  verify = refl;
  regular = refl;
  links = refl;
  lstat_after = refl;
  steady = refl;
  leave = refl;
}

assess-IsAdmitted_example : IsAdmitted python loads site event env admitted (second * 1001)
unfolding assess validate_now check_event validate_issue check_heads get has_key equals is_time
    is_unique is_request_id is_sha has_field field_of head_of
assess-IsAdmitted_example =
    assess-IsAdmitted python loads site event env admitted (second * 1000) (second * 1001) refl

claim-once_example : count original_request_id (run dumps (start []) schedule).returned ≤ 1
claim-once_example = claim-once dumps original_request_id [] schedule

claim-durable_example :
    (validate_metadata original_claim ≡ ok tt)
    × (lookup (request_of original_claim) no_claims ≡ none)
    × (lookup (request_of original_claim) claims_after ≡ some stored)
    × (original_request_id ≡ request_of original_claim)
unfolding claim get insert lookup validate_metadata is_identifier is_sha is_request_id fits at_most
claim-durable_example =
    claim-durable dumps checks original_claim no_claims claims_after
      (record { request_id = original_request_id }) refl

main-IsAdmittedClaim_example :
    IsAdmittedClaim python loads dumps site event env []
      (record { request_id = original_request_id })
      (second * 1001, claims_after)
unfolding main claim_metadata assess validate_now check_event validate_issue check_heads get has_key
    equals is_time is_unique is_request_id is_sha has_field field_of head_of claim insert lookup
    validate_metadata is_identifier fits at_most
main-IsAdmittedClaim_example =
    main-IsAdmittedClaim python loads dumps site machine checks event env
      (record { request_id = original_request_id }) (second * 1000) [] (second * 1001, claims_after)
      refl

inspect-answers_example :
    ((look.lstat ≡ ok none) × (present ≡ receipt "CLAIM_ABSENT_AT_READ_TIME" false))
    ⊎ (IsPresent python loads look × (present ≡ receipt "CLAIM_PRESENT_UNCERTAIN" true))
unfolding inspect read_claim_file check_receipt names_original is_unique get has_field field_of
    validate_metadata is_identifier is_sha is_request_id fits at_most
inspect-answers_example = inspect-answers python loads look present refl

claim-inspect_example : inspect python loads look ≡ ok (receipt "CLAIM_PRESENT_UNCERTAIN" true)
unfolding claim get insert lookup validate_metadata is_identifier is_sha is_request_id fits at_most
claim-inspect_example =
    claim-inspect python loads look info dumps checks "5" "9" "1" [] claims_after
      (record { request_id = original_request_id }) refl refl refl refl calm
