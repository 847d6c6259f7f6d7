-- ===== src/Capacity/Event.antt =====
-- The first guards of `assess`: the workflow's environment and its event.
use desktop_pc24x7_runtime.Prelude.{
  Bool, true, false, not, ◌&&◌, Option, none, some, List, String, ◌==◌, lookup, if◌then◌else◌,
}
use desktop_pc24x7_runtime.Json.{Json, null, bool, obj, end, get, has_key, is_text}
use desktop_pc24x7_runtime.Result.{Result, ok, ◌>>=◌, ◌>>◌}
use desktop_pc24x7_runtime.Broker.Comment.{get_or_raise}
use desktop_pc24x7_runtime.Capacity.Pattern.{is_identifier}
use desktop_pc24x7_runtime.Capacity.Issue.{require, owner, identity}

abbrev pub Environment : Type 0
Environment = List (String × String)

abbrev pub repository_name : String
repository_name = "ericson-j-santos/desktop-pc24x7-runtime"

abbrev pub is_some : Option String → String → Bool
is_some none value = false
is_some (some found) value = found == value

-- env.get(key) == value
abbrev pub env_is : Environment → String → String → Bool
env_is env key value = is_some (lookup key env) value

abbrev pub or_empty : Option String → String
or_empty none = ""
or_empty (some value) = value

-- value is False
abbrev pub is_false : Json → Bool
is_false (bool b) = not b
is_false _ = false

-- value.get(key, {})
unfoldable pub get_or_empty : String → Json → Result Json
unfolding get_or_raise
get_or_empty key value = do
  found ← get_or_raise key value
  ok (if has_key key value then found else obj end)

-- Of `a and b`, b is looked at only if a holds.
abbrev pub get_after : Bool → String → Json → Result Json
get_after true key value = get_or_raise key value
get_after false key value = ok null

unfoldable pub check_repository : Json → Result (Unit {0})
unfolding get_or_raise identity
check_repository repo = do
  full_name ← get_or_raise "full_name" repo
  require
      (is_text full_name repository_name
        && (is_text (get "default_branch" repo) "main"
            && (is_false (get "private" repo) && identity (get "owner" repo))))
      "REPOSITORY_INVALID"

-- Up to issue = event.get("issue"), which it returns.
unfoldable pub check_event : Json → Environment → Result Json
unfolding get_or_raise check_repository is_identifier lookup get_or_empty identity
check_event event env = do
  action ← get_after (env_is env "GITHUB_EVENT_NAME" "issues") "action" event
  require (is_text action "opened") "EVENT_INVALID"
  require
      (env_is env "GITHUB_REPOSITORY" repository_name && env_is env "GITHUB_REF" "refs/heads/main")
      "REPOSITORY_OR_REF_INVALID"
  require
      (env_is env "GITHUB_ACTOR" owner
        && (env_is env "GITHUB_TRIGGERING_ACTOR" owner && env_is env "GITHUB_ACTOR_ID" "60470500"))
      "ACTOR_INVALID"
  require
      (env_is env "GITHUB_RUN_ATTEMPT" "1" && is_identifier (or_empty (lookup "GITHUB_RUN_ID" env)))
      "RERUN_INVALID"
  require (identity (get "sender" event)) "SENDER_INVALID"
  repo ← get_or_empty "repository" event
  check_repository repo
  ok (get "issue" event)
