-- ===== src/Broker/Upkeep.antt =====
-- Tests of the broker's upkeep of its own metadata, and of its actions, on a small host.
use desktop_pc24x7_runtime.Prelude.{
  List, [], ◌∷◌, if◌then◌else◌, ◌*◌, ◌≡◌, refl, sym, ap, none, some, [], ◌∷◌, String, ◌==◌, true,
  false, any,
}
use desktop_pc24x7_runtime.Json.{Json, null, bool, text, object, get, is_true}
use desktop_pc24x7_runtime.Result.{Result, ok, broker_error}
use desktop_pc24x7_runtime.Effect.{pure}
use desktop_pc24x7_runtime.Text.{Python, second, str_or_empty}
use desktop_pc24x7_runtime.Broker.Comment.{allowed_commands}
use desktop_pc24x7_runtime.Broker.Activation.{
  load, Store, Tools, reconcile_activation, restore_previous_release, elevated_task_proven,
  task_ready,
}
use desktop_pc24x7_runtime.Broker.Activation.Careful.{
  IsExactLocked, restore_previous_release-IsExact, reconcile_activation-channel,
}
use desktop_pc24x7_runtime.Broker.Refresh.{
  Updater, Refreshed, updated, refreshed_metadata, self_refresh,
}
use desktop_pc24x7_runtime.Broker.Watch.{Loop, Beating, stopped, watch, watch-stopped}
use desktop_pc24x7_runtime.Broker.Actions.{Services, File, absent, holds}
use desktop_pc24x7_runtime.Broker.Actions.Execute.{
  health_payload, health_report, handler_of, windows_component_health,
}
use desktop_pc24x7_runtime.Broker.Actions.Dispatch.{
  has_handler, handler_of-allowed, ReadsBack, windows_component_health-once,
}

abbrev str : Json → String
str (text s) = s
str _ = ""

abbrev python : Python
python = record {
  str = str;
  casefold = λ s. s;
  upper = λ s. s;
  strip = λ s. s;
  fromisoformat = λ s. some (record { aware = true; instant = 10000 * second });
  isoformat = λ _. "1970-01-01T02:46:40+00:00";
  isalnum = λ _. true;
}

abbrev last : List String → String
last [] = ""
last (x ∷ []) = x
last (x ∷ y ∷ xs) = last (y ∷ xs)

abbrev sha : String
sha = "0123456789abcdef0123456789abcdef01234567"

abbrev task : Json
task = object (
    ("exists", bool true)
    ∷ ("trigger_at_startup", bool true)
    ∷ ("logon_type", text "s4u")
    ∷ ("run_level", text "highest")
    ∷ ("enabled", bool true)
    ∷ [])

abbrev previous : Json
previous = object (
    ("source_sha", text sha)
    ∷ ("release_root", text sha)
    ∷ ("admin_channel_ready", bool true)
    ∷ ("admin_task", task)
    ∷ [])

abbrev attempted : Json
attempted = object (("source_sha", text "fedcba9876543210fedcba9876543210fedcba98") ∷ [])

abbrev tools : Tools (Unit {0})
tools = record {
  python = python;
  equal = λ a b. str (get "source_sha" a) == str (get "source_sha" b);
  lower = λ s. s;
  load_check = λ _. ok tt;
  acquire_lock = λ store. (ok tt, store);
  release_lock = λ v. v;
  task_status = λ store. (ok task, store);
  user_autostart_status = λ store. (ok null, store);
  register_user_autostart = λ store. (ok null, store);
  release_of = λ s. s;
  resolve = λ s. s;
  broker_is_file = λ _ _. true;
  launcher_path = "activate.cmd";
}

abbrev store : Json → Store (Unit {0})
store metadata = record { metadata = metadata; activation = "fedcba98"; rest = tt }

restore_previous_release-IsExact_example :
    IsExactLocked tools previous attempted
      (ok tt, store attempted)
      (restore_previous_release tools previous attempted "activate.cmd" (store attempted))
restore_previous_release-IsExact_example =
    restore_previous_release-IsExact tools previous attempted "activate.cmd" (store attempted)

reconciled : reconcile_activation tools previous (store previous) ≡ (ok previous, store previous)
unfolding reconcile_activation elevated_task_proven task_ready get str_or_empty
reconciled = refl

previous_ready : is_true (get "admin_channel_ready" previous) ≡ true
unfolding get
previous_ready = refl

reconcile_activation-channel_example :
    (previous ≡ previous) × (elevated_task_proven tools previous ≡ true)
reconcile_activation-channel_example =
    reconcile_activation-channel tools previous (store previous) reconciled previous_ready

abbrev other_sha : String
other_sha = "fedcba9876543210fedcba9876543210fedcba98"

-- Git answers with the head of the main branch, and the new broker starts.
abbrev updater : Updater (Unit {0})
updater = record {
  tools = tools;
  require_windows_desktop = pure tt;
  git_executable = pure "git";
  run = λ _ args.
      pure (record { returncode = 0; stdout = if last args == "HEAD" then other_sha else "" });
  rows = λ _. (other_sha ∷ "refs/heads/main" ∷ []) ∷ [];
  clone = "repo";
  copy_release = λ _. pure tt;
  start_user_broker = pure (object (("startup_survived", bool true) ∷ []));
  now_iso = "1970-01-01T02:46:40+00:00";
}

abbrev refreshed : Refreshed
refreshed = record {
  refresh_state = updated;
  previous_source_sha = sha;
  target_source_sha = other_sha;
  new_broker_started = true;
}

abbrev refreshed_store : Store (Unit {0})
refreshed_store = record {
  metadata = refreshed_metadata updater sha other_sha "activate.cmd" previous;
  activation = other_sha;
  rest = tt;
}

-- The world is the receipt.
abbrev services : Services File
services = record {
  python = python;
  status = pure null;
  activate_watchdog = pure null;
  self_refresh = pure null;
  qualify_orchestrator_runner_acl = λ _. pure null;
  is_windows = true;
  bootstrap_is_file = λ _. false;
  run_bootstrap = pure (record { returncode = 0; stdout = "" });
  run_recovery = λ _. pure (record { returncode = 0; stdout = "" });
  run_check = λ _. pure 0;
  reversed_lines = λ _. [];
  starts_and_ends_with_braces = λ _. false;
  json_loads = λ _. none;
  rdc_evidence = λ _ _. absent;
  health_evidence = λ _ w. w;
  write_health_evidence = λ _ payload _. (ok tt, holds payload);
  configci_present = λ _. true;
  cipolicy_schema_present = λ _. false;
  cut = λ _ s. s;
  watchdog_is_file = λ _. false;
  watchdog_cycle = pure null;
  watchdog_task_status = pure null;
  run_watchdog_task = pure null;
  correlation_id = λ _. "desktop-admin-gh-comment-7";
}

handler_of-allowed_example :
    has_handler services (handler_of services "refresh-self" "desktop-admin-gh-comment-7")
    ≡ any (λ (command : String × String). "refresh-self" == command.1) allowed_commands
handler_of-allowed_example = handler_of-allowed services "refresh-self" "desktop-admin-gh-comment-7"

reads_back : ReadsBack services
reads_back correlation_id payload w w' h = sym (ap (λ (p : Result (Unit {0}) × File). p.1) h)

abbrev command : String
command = "desktop-admin-gh-comment-7"

abbrev receipt : Json
receipt = health_payload services command 0 0 0 true false

checked :
    windows_component_health services command absent
    ≡ (ok (health_report services false receipt), holds receipt)
unfolding windows_component_health
checked = refl

windows_component_health-once_example :
    (again : Json) × (windows_component_health services command (holds receipt)
      ≡ (ok again, holds receipt))
windows_component_health-once_example =
    windows_component_health-once services reads_back command absent checked

-- A broker that hands over after its first pass.
abbrev loop : Loop (Unit {0})
loop = record {
  load = pure previous;
  acquire_broker_lock = pure tt;
  release_broker_lock = λ v. v;
  can_write = λ _. true;
  write_error = record { class = broker_error; message = "" };
  elevated_task_proven = λ _. false;
  task_ready = pure false;
  reconcile = pure previous;
  process_once = λ _. pure true;
  record_error = λ _ _. pure tt;
  naps = λ _ _. 1;
  sleep = λ v. v;
}

abbrev silent : Beating (Unit {0})
silent = record { heartbeat = none; rest = tt }

watch-stopped_example : (watch loop 3 silent).1.heartbeat ≡ some stopped
watch-stopped_example = watch-stopped loop (λ _. refl) 3 silent silent silent silent refl refl refl
