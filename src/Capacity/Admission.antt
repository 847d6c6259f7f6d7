-- ===== src/Capacity/Admission.antt =====
-- `assess` and `api_get` of scripts/desktop_gitlab_capacity_admission.py.
pub mod Valid
pub mod Admitted
use Prim.Native.String.{◌++◌, count}
use desktop_pc24x7_runtime.Prelude.{
  ℕ, Bool, true, false, not, ◌&&◌, ◌||◌, Option, none, some, List, [], ◌∷◌, String, ◌==◌,
  starts_with, leb, eqb, all, lookup, if◌then◌else◌,
}
use desktop_pc24x7_runtime.Json.{Json, text, get}
use desktop_pc24x7_runtime.Result.{Result, ok, raise, value_error, other_error}
use desktop_pc24x7_runtime.Effect.{Effect, pure, lift, ◌>>=◌, ◌>>◌}
use desktop_pc24x7_runtime.Text.{Python}
use desktop_pc24x7_runtime.Capacity.Keys.{extend}
use desktop_pc24x7_runtime.Capacity.Equal.{equals}
use desktop_pc24x7_runtime.Capacity.Issue.{require, validate_issue, string_of}
use desktop_pc24x7_runtime.Capacity.Event.{
  Environment, repository_name, env_is, or_empty, check_event,
}
use desktop_pc24x7_runtime.Capacity.Head.{head_of, check_heads}

-- What `assess` is given: `get`, and `now` in microseconds.
pub record Site (W : Type 0) : Type 0 where
  pub fetch : String → Effect W Json
  pub now : W → ℕ × W

-- The keys of which a change of the issue is refused.
abbrev pub watched_keys : List String
watched_keys = "id" ∷ "number" ∷ "title" ∷ "body" ∷ "created_at" ∷ "updated_at" ∷ []

abbrev pub is_unchanged : Json → Json → Bool
is_unchanged fresh issue = all (λ key. equals (get key fresh) (get key issue)) watched_keys

abbrev pub main_path : String
main_path = "/repos/" ++ (repository_name ++ "/branches/main")

abbrev pub rules_path : String
rules_path = "/repos/ericson-j-santos/chatgpt-operational-rules/branches/main"

module _ {W : Type 0} (python : Python) (loads : String → Option Json) (site : Site W) where
  -- validate_issue(issue, now())
  unfoldable pub validate_now : Json → Effect W Json
  validate_now issue w = (validate_issue python loads issue (site.now w).0, (site.now w).1)

  abbrev pub issue_path : Json → String
  issue_path issue =
      "/repos/" ++ (repository_name ++ ("/issues/" ++ python.str (get "number" issue)))

  -- What `assess` returns.
  abbrev pub admission : Environment → Json → Json → Json
  admission env issue request = extend request (
      ("issue_id", text (python.str (get "id" issue)))
      ∷ ("issue_number", text (python.str (get "number" issue)))
      ∷ ("run_id", text (or_empty (lookup "GITHUB_RUN_ID" env)))
      ∷ ("issue_created_at", get "created_at" issue)
      ∷ [])

  abbrev pub conclude : Environment → Json → Json → Json → Effect W Json
  conclude env issue request latest = pure (admission env issue request)

  abbrev pub revalidate : Environment → Json → Json → Json → Unit {0} → Effect W Json
  revalidate env issue request fresh _ = validate_now fresh >>= conclude env issue request

  abbrev pub after_rules : Environment → Json → Json → Json → Json → Json → Effect W Json
  after_rules env issue request fresh main rules =
      lift (check_heads request main rules) >>= revalidate env issue request fresh

  abbrev pub after_main : Environment → Json → Json → Json → Json → Effect W Json
  after_main env issue request fresh main =
      site.fetch rules_path >>= after_rules env issue request fresh main

  abbrev pub read_main : Environment → Json → Json → Json → Unit {0} → Effect W Json
  read_main env issue request fresh _ = site.fetch main_path >>= after_main env issue request fresh

  -- A key of `fresh` is compared by fresh.get, which the validation has found to be a dict.
  abbrev pub after_fresh : Environment → Json → Json → Json → Json → Effect W Json
  after_fresh env issue request fresh latest =
      lift (require (is_unchanged fresh issue) "ISSUE_CHANGED")
      >>= read_main env issue request fresh

  abbrev pub after_fetch : Environment → Json → Json → Json → Effect W Json
  after_fetch env issue request fresh = validate_now fresh >>= after_fresh env issue request fresh

  abbrev pub read_fresh : Environment → Json → Json → Unit {0} → Effect W Json
  read_fresh env issue request _ = site.fetch (issue_path issue) >>= after_fetch env issue request

  abbrev pub after_request : Environment → Json → Json → Effect W Json
  after_request env issue request =
      lift (
        require (env_is env "GITHUB_SHA" (string_of (get "expected_head_sha" request)))
          "EVENT_SHA_INVALID")
      >>= read_fresh env issue request

  abbrev pub after_event : Environment → Json → Effect W Json
  after_event env issue = validate_now issue >>= after_request env issue

  unfoldable pub assess : Json → Environment → Effect W Json
  assess event env = lift (check_event event env) >>= after_event env

-- "?" in path
abbrev has_question : String → Bool
has_question String.[] = false
has_question (String.◌∷◌ c s) = (String.◌∷◌ c "" == "?") || has_question s

-- What the connection answers: the status and the first 262,145 bytes of the body.
pub record Response : Type 0 where
  pub status : ℕ
  pub raw : String

abbrev parsed_or_raise : Option Json → Result Json
parsed_or_raise none = raise value_error "JSONDecodeError"
parsed_or_raise (some value) = ok value

module _ {W : Type 0} (loads : String → Option Json) (urlopen : String → Effect W Response) where
  unfoldable pub api_get : String → Effect W Json
  api_get path = do
    lift (
        require (starts_with path "/repos/ericson-j-santos/" && not (has_question path))
          "API_PATH_INVALID")
    response ← urlopen ("https://api.github.com" ++ path)
    lift (
        require (eqb response.status 200 && leb (count response.raw) 262144) "API_RESPONSE_INVALID")
    lift (parsed_or_raise (loads response.raw))
