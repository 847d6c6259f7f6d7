-- ===== src/Supervisor/Examples.antt =====
-- The supervisor on one configuration: a worker pool that is down, and a runner that is up.
use desktop_pc24x7_runtime.Prelude.{
  ℕ, ◌+◌, ◌≤◌, ◌≡◌, ◌↔◌, refl, Bool, true, false, none, some, List, [], ◌∷◌, String, arith, ◌==◌,
  All, all, lookup, insert, if◌then◌else◌,
}
use desktop_pc24x7_runtime.Json.{
  Json, null, bool, num, text, arr, nil, cons, object, end, get, has_key,
}
use desktop_pc24x7_runtime.Result.{ok, raise, os_error}
use desktop_pc24x7_runtime.Supervisor.Config.{
  target_name, text_of, target_list, validate_config, IsConfig, validate_config_iff,
}
use desktop_pc24x7_runtime.Supervisor.Cycle.{
  Entry, Item, State, Evidence, status_ok, infra_unavailable, recovery_attempted,
  attempt_limit_reached, Surroundings, Limits, new_entry, visit, visit_all, run_cycle, int_field,
  evidence_of,
}
use desktop_pc24x7_runtime.Supervisor.Outcome.{found_healthy, run_cycle-status}
use desktop_pc24x7_runtime.Supervisor.Breaker.{
  recoveries, attempts_of, run_cycles, recoveries_bounded, NeverHealthy,
}
use desktop_pc24x7_runtime.Supervisor.Isolation.{Visited, run_cycle-isolated}
use desktop_pc24x7_runtime.Supervisor.Targets.{
  Tools, failure, IsProbe, IsRecovery, probe_target, recover_target, commands_allowlisted,
}

abbrev pool : Json
pool = object (("name", text "pool") ∷ ("kind", text "docker") ∷ ("container", text "worker") ∷ [])

abbrev listener : Json
listener = object (("name", text "listener") ∷ ("kind", text "runner") ∷ [])

abbrev config : Json
config = object (
    ("host", text "DESKTOP-PDQK954")
    ∷ ("max_attempts", num 2)
    ∷ ("targets", arr (cons pool (cons listener nil)))
    ∷ [])

validate_config_iff_example : (validate_config config ≡ ok tt) ↔ IsConfig config
validate_config_iff_example = validate_config_iff config

abbrev down : Json
down = object (("healthy", bool false) ∷ [])

abbrev up : Json
up = object (("healthy", bool true) ∷ [])

abbrev env : Surroundings
env = record {
  probe_fn = λ t. ok (if target_name t == "pool" then down else up);
  recover_fn = λ _. ok null;
  now = 1000;
  now_iso = "2026-07-01T00:00:00+00:00";
  hostname = "DESKTOP-PDQK954";
  int_of_text = λ _. ok 0;
}

abbrev fresh : State
fresh = record { targets = []; updated_at = none; status = none }

abbrev pool_item : Item
pool_item = record {
  name = "pool";
  kind = text "docker";
  probe = down;
  status = infra_unavailable;
  reason = some recovery_attempted;
  recovery = some null;
}

abbrev listener_item : Item
listener_item = record {
  name = "listener";
  kind = text "runner";
  probe = up;
  status = status_ok;
  reason = none;
  recovery = none;
}

abbrev pool_entry : Entry
pool_entry = record new_entry { attempts = 1; last_attempt_at = some "2026-07-01T00:00:00+00:00" }

abbrev listener_entry : Entry
listener_entry = record new_entry { last_healthy_at = some "2026-07-01T00:00:00+00:00" }

abbrev evidence : Evidence
evidence = evidence_of env true (pool_item ∷ listener_item ∷ [])

abbrev after : State
after = record {
  targets = ("pool", pool_entry) ∷ ("listener", listener_entry) ∷ [];
  updated_at = some "2026-07-01T00:00:00+00:00";
  status = some infra_unavailable;
}

cycle_runs : run_cycle env true config fresh ≡ ok (evidence, after)
unfolding run_cycle validate_config int_field visit visit_all target_list get has_key lookup insert
cycle_runs = refl

listed : target_list (get "targets" config) ≡ ok (pool ∷ listener ∷ [])
unfolding target_list get
listed = refl

run_cycle-status_example :
    (evidence.status ≡ (
      if all (λ t. found_healthy (env.probe_fn t)) (pool ∷ listener ∷ [])
      then status_ok
      else infra_unavailable))
    × (after.status ≡ some evidence.status)
run_cycle-status_example =
    run_cycle-status env true config fresh (pool ∷ listener ∷ []) {r = (evidence, after)} listed
      cycle_runs

run_cycle-isolated_example :
    (ts : List Json) × (limits : Limits) × (target_list (get "targets" config) ≡ ok ts)
    × (int_field env.int_of_text "max_attempts" 3 config ≡ ok limits.max_attempts)
    × (int_field env.int_of_text "cooldown_seconds" 900 config ≡ ok limits.cooldown)
    × All (Visited env true limits fresh.targets after.targets) ts
    × ((n : String)
        → All (λ t. (target_name t == n) ≡ false) ts
        → lookup n after.targets ≡ lookup n fresh.targets)
run_cycle-isolated_example =
    run_cycle-isolated env true config fresh {r = (evidence, after)} cycle_runs

-- Four cycles on a pool that stays down: a recovery, a cycle that raises, a second recovery, and then
-- the breaker opens.
abbrev four : List (Surroundings × Bool)
four =
    (env, true)
    ∷ (record env { now = 1500; probe_fn = λ _. raise os_error "" }, true)
    ∷ (record env { now = 2000 }, true)
    ∷ (record env { now = 9000 }, true)
    ∷ []

pool_down : NeverHealthy "pool" (run_cycles config four fresh).0
unfolding run_cycles run_cycle validate_config int_field visit visit_all target_list get has_key
    lookup insert
pool_down = ground arith

recoveries_bounded_example :
    recoveries "pool" (run_cycles config four fresh).0 + attempts_of "pool" fresh.targets ≤ 2
unfolding lookup int_field get has_key
recoveries_bounded_example =
    recoveries_bounded "pool" config 2 four fresh (refl, (refl, (refl, (refl, tt)))) pool_down
      (omega arith)

pool_recoveries : recoveries "pool" (run_cycles config four fresh).0 ≡ 2
unfolding run_cycles run_cycle validate_config int_field visit visit_all target_list get has_key
    lookup insert
pool_recoveries = refl

abbrev spent : Entry
spent = record new_entry { attempts = 2; opened_at_epoch = 3000 }

abbrev blocked : Item
blocked = record pool_item { reason = some attempt_limit_reached; recovery = none }

abbrev limits : Limits
limits = record { max_attempts = 2; cooldown = 900 }

-- A machine that counts the calls.
abbrev tools : Tools ℕ
tools = record {
  http_get = λ _ _ calls. (ok (failure "URLError"), calls + 1);
  run_command = λ _ _ calls. (ok (record { returncode = 1; stdout = "" }), calls + 1);
  count_listeners = λ _ calls. (ok 1, calls + 1);
  start_runner = λ _ _ calls. (ok end, calls + 1);
  expandvars = λ s. s;
  str = λ v. text_of v;
  strip = λ s. s;
}

commands_allowlisted_example :
    IsProbe tools pool 0 (probe_target tools pool 0).1
    × IsRecovery tools pool 0 (recover_target tools pool 0).1
commands_allowlisted_example = commands_allowlisted tools pool 0
