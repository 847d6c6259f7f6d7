-- ===== src/Broker/Examples.antt =====
-- The broker on two comments: an owner's command, and a stranger's.
use desktop_pc24x7_runtime.Prelude.{
  ℕ, ◌+◌, ◌*◌, ◌≤◌, ◌<◌, ◌≡◌, ◌↔◌, ◌⊎◌, refl, Bool, true, false, Option, none, some, List, [], ◌∷◌,
  String, arith, ◌==◌, eq_iff, lookup, inl, inr,
}
use desktop_pc24x7_runtime.Prelude
use desktop_pc24x7_runtime.Json.{Json, null, bool, num, text, object, get}
use desktop_pc24x7_runtime.Result.{ok, raised, Exception, broker_error}
use desktop_pc24x7_runtime.Text.{Python, second, replace_z, str_or_empty}
use desktop_pc24x7_runtime.Broker.Comment.{
  authorize_comment, parse_github_time, IsCommand, authorize_comment_iff, get_or_raise,
}
use desktop_pc24x7_runtime.Broker.Process.{
  State, Services, Summary, process_once, process_comments, classify, follow, sort_by_id, fetch,
}
use desktop_pc24x7_runtime.Broker.Process.Journal.{run_ids, history, Increasing, on_disk}
use desktop_pc24x7_runtime.Broker.Process.AtMostOnce.{commands_at_most_once}
use desktop_pc24x7_runtime.Broker.Process.Sorted.{DistinctIds}
use desktop_pc24x7_runtime.Broker.Process.Complete.{Ran, Served, no_command_lost}
use desktop_pc24x7_runtime.Broker.Process.Allowed.{Among, Commands, runs_authorized_only}

abbrev str : Json → String
str (text s) = s
str _ = ""

-- Every time in these texts is the instant of 10,000 seconds.
abbrev python : Python
python = record {
  str = str;
  casefold = λ s. s;
  upper = λ s. s;
  strip = λ s. s;
  fromisoformat = λ s. some (record { aware = true; instant = 10000 * second });
  isoformat = λ _. "1970-01-01T02:46:40+00:00";
  isalnum = λ _. true;
}

abbrev comment : ℕ → String → Json
comment id login = object (
    ("id", num id)
    ∷ ("user", object (("login", text login) ∷ []))
    ∷ ("author_association", text "OWNER")
    ∷ ("body", text "/desktop-runtime admin status")
    ∷ ("created_at", text "1970-01-01T02:46:40Z")
    ∷ ("updated_at", text "1970-01-01T02:46:40Z")
    ∷ [])

authorize_comment_iff_example :
    (authorize_comment python (comment 7 "ericson-j-santos") 0 (10000 * second)
      ≡ ok (some "status"))
    ↔ ((created : ℕ) × IsCommand python
          (comment 7 "ericson-j-santos")
          0
          (10000 * second)
          "status"
          created)
authorize_comment_iff_example =
    authorize_comment_iff python (comment 7 "ericson-j-santos") 0 (10000 * second) "status"

abbrev comments : List Json
comments = comment 9 "stranger" ∷ comment 7 "ericson-j-santos" ∷ []

abbrev services : Services
services = record {
  python = python;
  not_before = "1970-01-01T02:46:40Z";
  reference = λ _. 10000 * second;
  fetch_comments = λ _. ok comments;
  execute_action = λ _ _. ok (object (("ok", bool true) ∷ []));
  publish_readback = λ _. null;
  class_name = λ _. "BrokerError";
}

abbrev start : State
start = record { last_seen_comment_id = 5; last_seen_at = ""; accepted = none; readback = none }

-- The first pass dies after the command was started, before its end was written.
commands_at_most_once_example :
    Increasing 5 (run_ids (history ((services, 2) ∷ (services, 100) ∷ []) start))
commands_at_most_once_example = commands_at_most_once ((services, 2) ∷ (services, 100) ∷ []) start

crash_then_pass : run_ids (history ((services, 2) ∷ (services, 100) ∷ []) start) ≡ 7 ∷ []
unfolding history process_once process_comments classify follow sort_by_id fetch parse_github_time
    replace_z authorize_comment get_or_raise str_or_empty get Prelude.lookup
crash_then_pass = refl

abbrev summary : Summary
summary = record {
  comments_seen = 2;
  commands_accepted = 1;
  last_seen_comment_id = 9;
  restart_requested = false;
}

fetched : fetch services start ≡ ok (10000 * second, comments)
unfolding fetch parse_github_time replace_z
fetched = refl

pass_ends : (process_once services start).outcome ≡ ok summary
unfolding process_once process_comments classify follow sort_by_id fetch parse_github_time replace_z
    authorize_comment get_or_raise str_or_empty get Prelude.lookup
pass_ends = refl

distinct : DistinctIds comments
unfolding get
distinct = omega arith

no_command_lost_example :
    Prelude.All
      (Served services (10000 * second) 5 9 (process_once services start).journal)
      comments
    × ((on_disk start (process_once services start).journal).last_seen_comment_id ≡ 9)
no_command_lost_example =
    no_command_lost services start (10000 * second) comments {summary = summary} fetched distinct
      pass_ends

seven_runs : Ran 7 "status" (process_once services start).journal
unfolding process_once process_comments classify follow sort_by_id fetch parse_github_time replace_z
    authorize_comment get_or_raise str_or_empty get Prelude.lookup
seven_runs = inl (refl, refl)

runs_authorized_only_example :
    (since : ℕ) × (cs : List Json) × (fetch services start ≡ ok (since, cs))
    × Among (Commands services since 7 "status") cs
runs_authorized_only_example = runs_authorized_only services start 7 "status" seven_runs

abbrev refused : Exception
refused = record { class = broker_error; message = "runner_recovery_failed" }

-- The same services, with a recovery that raises.
abbrev refusing : Services
refusing = record services { execute_action = λ _ _. raised refused }
