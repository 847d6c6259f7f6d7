-- ===== src/Watchdog/Examples.antt =====
-- The watchdog on a host where the runner's listener runs and the remote desktop is switched off.
use Prim.Native.String.{◌++◌}
use desktop_pc24x7_runtime.Prelude.{
  ℕ, ◌+◌, ◌*◌, ◌≡◌, refl, none, some, [], ◌∷◌, String, ◌==◌, true, false, not, ◌&&◌, ◌||◌, contains,
  lookup, insert, if◌then◌else◌,
}
use desktop_pc24x7_runtime.Json.{Json, null, bool, arr, nil, text}
use desktop_pc24x7_runtime.Result.{ok, succeeded}
use desktop_pc24x7_runtime.Effect.{Effect, pure}
use desktop_pc24x7_runtime.Text.{Python, second}
use desktop_pc24x7_runtime.Rdc.Claim.{missing as claim_missing}
use desktop_pc24x7_runtime.Watchdog.Host.{Host}
use desktop_pc24x7_runtime.Watchdog.Environment.{
  child_environment, is_withheld, orchestrator_env_keys, lookup-child_environment,
}
use desktop_pc24x7_runtime.Watchdog.Runner.{start_runner, already, validate_runner_home}
use desktop_pc24x7_runtime.Watchdog.Runner.Listener.{Names, start_runner-Names}
use desktop_pc24x7_runtime.Watchdog.Site.{Site, Metadata, absent}
use desktop_pc24x7_runtime.Watchdog.Orphan.{
  Tools, Disk, missing, regular, backup_of, quarantine, restore_missing,
}
use desktop_pc24x7_runtime.Watchdog.Orphan.Restored.{quarantine-restores}
use desktop_pc24x7_runtime.Watchdog.Cycle.{
  Plan, CycleState, listening, not_applicable, cycle, prepare,
}
use desktop_pc24x7_runtime.Watchdog.Cycle.{recovery_script}
use desktop_pc24x7_runtime.Watchdog.Cycle.Verdict.{IsSound, cycle-returns, cycle-IsSound}

lookup-child_environment_example :
    lookup "GH_TOKEN"
      (child_environment (λ s. s) false (("GH_TOKEN", "secret") ∷ ("PATH", "C:") ∷ []))
    ≡ (if is_withheld "GH_TOKEN" || (false && not (contains orchestrator_env_keys "GH_TOKEN"))
        then none
        else lookup "GH_TOKEN" (("GH_TOKEN", "secret") ∷ ("PATH", "C:") ∷ []))
lookup-child_environment_example =
    lookup-child_environment (λ s. s) false (("GH_TOKEN", "secret") ∷ ("PATH", "C:") ∷ [])
      "GH_TOKEN"

abbrev str : Json → String
str (text s) = s
str _ = ""

abbrev python : Python
python = record {
  str = str;
  casefold = λ s. if s == "DESKTOP-PDQK954" then "desktop-pdqk954" else s;
  upper = λ s. s;
  strip = λ s. s;
  fromisoformat = λ s. some (record { aware = true; instant = 10000 * second });
  isoformat = λ _. "1970-01-01T02:46:40+00:00";
  isalnum = λ _. true;
}

-- The world is the clock.
abbrev host : Host ℕ
host = record {
  python = python;
  isdigit = λ _. true;
  int = λ s. ok (if s == "2" then 2 else if s == "337" then 337 else 0);
  resolve = λ s. s;
  join = λ s t. s ++ t;
  normcase = λ s. s;
  is_file = λ _ _. true;
  environ = λ _. [];
  getenv = λ _ _. none;
  run_version = λ _. pure (record { returncode = 0; stdout = "2.337.0" });
  process_ids = λ _. ok (4711 ∷ []);
  executable = λ _ _. some "C:/runner/bin/Runner.Listener.exe";
  open_log = λ _. pure tt;
  popen = λ _. pure 4712;
  poll = λ _ _. none;
  taskkill = λ _. pure 0;
  monotonic = λ w. w;
  sleep = λ d w. w + d;
}

found : start_runner host "C:/runner/" "runner.log" 0 ≡ (ok (already host "2.337.0" 4711), 0)
unfolding start_runner
found = refl

start_runner-Names_example : Names host "C:/runner/" (already host "2.337.0" 4711)
start_runner-Names_example = start_runner-Names host "C:/runner/" "runner.log" 0 found

abbrev site : Site ℕ
site = record {
  host = host;
  is_windows = true;
  hostname = "DESKTOP-PDQK954";
  is_absolute = λ _. true;
  rstrip_slash = λ s. s;
  tail = λ s. s;
  class_name = λ _. "WatchdogError";
  inventory_directory = λ _. pure tt;
  inventory_json = λ _. pure null;
  claim_file = λ _. claim_missing;
  now = λ w. w;
  run_recovery = λ _. pure (record { returncode = 1; stdout = ""; stderr = "" });
  evidence_file = λ _. absent;
}

abbrev metadata : Metadata
metadata = record {
  runtime_root = "C:/watchdog";
  release_root = "C:/watchdog/release";
  runner_home = "C:/runner/";
  source_sha = "0123456789abcdef0123456789abcdef01234567";
  additional_runner_profiles = arr nil;
  rdc_recovery_enabled = some (bool false);
}

abbrev write : CycleState → Effect ℕ (Unit {0})
write _ w = (ok tt, w + 1)

abbrev plan : Plan
plan = record {
  host = "DESKTOP-PDQK954";
  runner_home = "C:/runner/";
  additional_home = none;
  rdc_enabled = false;
}

planned : prepare site metadata 0 ≡ (ok plan, 0)
unfolding prepare validate_runner_home
planned = refl

cycle-returns_example : succeeded (cycle site write metadata 0).0 ≡ true
cycle-returns_example = cycle-returns site write metadata 0 (λ _ _. refl) planned

abbrev state : CycleState
state = record {
  host = "DESKTOP-PDQK954";
  source_sha = "0123456789abcdef0123456789abcdef01234567";
  rdc = not_applicable "disabled_by_owner";
  github_runner = listening (already host "2.337.0" 4711);
  runner_recovery_ok = true;
  primary_runner_recovery_ok = true;
  additional_runners = [];
  additional_runner_recovery_ok = true;
  rdc_recovery_enabled = false;
  rdc_recovery_ok = true;
  rdc_required = false;
  is_ok = true;
  partial = false;
  github_pickup_required = true;
}

cycled : cycle site write metadata 0 ≡ (ok state, 1)
unfolding cycle validate_runner_home start_runner
cycled = refl

cycle-IsSound_example : IsSound site "C:/runner/" (recovery_script site metadata) state
cycle-IsSound_example = cycle-IsSound site write metadata 0 cycled refl

-- A task file without a task.
abbrev orphan_tools : Tools
orphan_tools = record {
  python = python;
  parse_task = λ _. none;
  sha256 = λ _. "digest";
  same_file = λ _ _. true;
  unquote = λ s. s;
  python_executable = "python.exe";
  launcher = "run.py";
  invocation_id = "direct-elevated";
  now_iso = "1970-01-01T02:46:40+00:00";
  register_boot_task = pure tt;
}

abbrev quarantined : Disk
quarantined = record {
  entry = missing;
  backups = ("digest", backup_of orphan_tools "digest" "<Task/>") ∷ [];
  scheduled = none;
}

abbrev orphaned : Disk
orphaned = record { entry = regular "<Task/>"; backups = []; scheduled = none }

quarantined_once :
    quarantine orphan_tools (some "digest") orphaned ≡ (ok (some "digest"), quarantined)
unfolding lookup insert
quarantined_once = refl

quarantine-restores_example :
    (quarantined.entry ≡ missing)
    × ((payload : String) × ((restore_missing orphan_tools "digest" missing quarantined).1.entry
          ≡ regular payload)
        × ((orphan_tools.sha256 payload == "digest") ≡ true))
quarantine-restores_example =
    quarantine-restores orphan_tools "digest" orphaned (λ _ _. refl) quarantined_once
