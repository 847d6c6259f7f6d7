-- ===== src/Broker/Actions.antt =====
-- `execute_action` and the actions that stand by themselves: the recoveries, and the check of
-- Windows' components.
pub mod Execute
pub mod Dispatch
use desktop_pc24x7_runtime.Prelude.{
  ℕ, Option, none, some, List, [], ◌∷◌, String, ◌==◌, Bool, true, false, not, ◌&&◌, ◌||◌, contains,
  eqb, if◌then◌else◌,
}
use desktop_pc24x7_runtime.Json.{
  Json, null, bool, num, text, get, is_dict, is_true, is_text, truthy, object,
}
use desktop_pc24x7_runtime.Result.{Result, ok, raised, broker_error, other_error, Exception}
use desktop_pc24x7_runtime.Effect.{
  Effect, pure, fail, fail_if, lift, reads, attempt, handle, ◌>>=◌, ◌>>◌,
}
use desktop_pc24x7_runtime.Text.{Python, str_or_empty}

pub record Completed : Type 0 where
  pub returncode : ℕ
  pub stdout : String

-- An evidence file: not there, not readable (with the exception of its reading), or its JSON.
pub data File : Type 0 where
  absent : File
  unreadable : Exception → File
  holds : Json → File

-- What the actions call. The first eight are the actions that have a part of their own.
pub record Services (W : Type 0) : Type 0 where
  pub python : Python
  pub status : Effect W Json
  pub activate_watchdog : Effect W Json
  pub self_refresh : Effect W Json
  pub qualify_orchestrator_runner_acl : String → Effect W Json
  pub is_windows : Bool
  pub bootstrap_is_file : W → Bool
  -- The runs of the bootstrap, of the recovery script and of the three checks.
  pub run_bootstrap : Effect W Completed
  pub run_recovery : String → Effect W Completed
  pub run_check : String → Effect W ℕ
  -- line.strip() of the lines of stdout, the last one first.
  pub reversed_lines : String → List String
  pub starts_and_ends_with_braces : String → Bool
  pub json_loads : String → Option Json
  pub rdc_evidence : String → W → File
  pub health_evidence : String → W → File
  pub write_health_evidence : String → Json → Effect W Unit
  pub configci_present : W → Bool
  pub cipolicy_schema_present : W → Bool
  -- s[:n]
  pub cut : ℕ → String → String
  -- watchdog_runtime_metadata().is_file(), and the functions of the installed watchdog.
  pub watchdog_is_file : W → Bool
  pub watchdog_cycle : Effect W Json
  pub watchdog_task_status : Effect W Json
  pub run_watchdog_task : Effect W Json
  pub correlation_id : ℕ → String

module _ {W : Type 0} (services : Services W) where
  open services use {python}

  -- The last line of the output that is a dict.
  unfoldable pub last_dict : List String → Option Json
  last_dict [] = none
  last_dict (line ∷ lines) =
      let rest = last_dict lines in
      if services.starts_and_ends_with_braces line
      then (elim (services.json_loads line) [
        | none ↦ rest
        | some candidate ↦ if is_dict candidate then some candidate else rest
      ])
      else rest

  abbrev pub or_unknown : Json → String
  or_unknown value = if truthy value then python.str value else "unknown"

  -- Whether the runner's own recovery is proved.
  abbrev pub is_locally_recovered : Json → Bool
  is_locally_recovered payload =
      is_true (get "local_recovery_ok" payload)
      && (is_true (get "runner_running" payload) && is_true (get "github_pickup_required" payload))

  abbrev pub bootstrap_succeeded : ℕ → Json → Bool
  bootstrap_succeeded code payload =
      (eqb code 0 && is_true (get "ok" payload))
      || ((eqb code 0 || eqb code 3) && is_locally_recovered payload)

  abbrev runner_report : Json → Json
  runner_report payload = object (
      ("handler", text "recover-runner")
      ∷ ("bootstrap_state", text (services.cut 120 (or_unknown (get "state" payload))))
      ∷ ("runner_running", bool (truthy (get "runner_running" payload)))
      ∷ ("local_recovery_ok", bool (truthy (get "local_recovery_ok" payload)))
      ∷ ("github_pickup_required", bool (truthy (get "github_pickup_required" payload)))
      ∷ ("github_pickup_proven", bool false)
      ∷ ("runner_registry_present", get "runner_registry_present" payload)
      ∷ (
        "runner_registry_status",
        text (services.cut 40 (or_unknown (get "runner_registry_status" payload))),
      )
      ∷ ("runner_registry_labels_ok", get "runner_registry_labels_ok" payload)
      ∷ ("runner_registered_now", bool (truthy (get "runner_registered_now" payload)))
      ∷ ("runner_started_now", bool (truthy (get "runner_started_now" payload)))
      ∷ [])

  -- An empty dict is no evidence.
  abbrev pub judge_bootstrap : ℕ → Option Json → Effect W Json
  judge_bootstrap code none = fail broker_error "runner_bootstrap_evidence_missing"
  judge_bootstrap code (some payload) = do
    fail_if (not (truthy payload)) broker_error "runner_bootstrap_evidence_missing"
    fail_if (not (bootstrap_succeeded code payload)) broker_error "runner_bootstrap_failed"
    pure (runner_report payload)

  unfoldable pub recover_runner : Effect W Json
  unfolding last_dict
  recover_runner = do
    there ← reads services.bootstrap_is_file
    fail_if (not there) broker_error "runner bootstrap governado ausente na release"
    completed ← services.run_bootstrap
    judge_bootstrap completed.returncode (last_dict (services.reversed_lines completed.stdout))

  abbrev dict_of : File → Effect W Json
  dict_of absent = pure null
  dict_of (unreadable exc) = lift (raised exc)
  dict_of (holds value) = pure value

  -- payload.get of what is no dict raises; without the file the dict is empty.
  abbrev is_ok_dict : File → Json → Effect W Bool
  is_ok_dict absent value = pure false
  is_ok_dict _ value =
      if is_dict value
      then pure (is_true (get "ok" value))
      else fail (other_error "AttributeError") "get"

  unfoldable pub recover_rdc : String → Effect W Json
  recover_rdc correlation_id = do
    completed ← services.run_recovery correlation_id
    file ← reads (services.rdc_evidence correlation_id)
    payload ← dict_of file
    proved ← if eqb completed.returncode 0 then is_ok_dict file payload else pure false
    fail_if (not proved) broker_error "recuperação governada do RDC falhou"
    pure (
        object (
          ("handler", text "recover-rdc")
          ∷ ("mode", get "mode" payload)
          ∷ ("owner", get "owner" payload)
          ∷ ("fallback_armed", bool (truthy (get "fallback_armed" payload)))
          ∷ []))

  abbrev is_runner_recovered : Json → Bool
  is_runner_recovered cycle =
      is_true (get "runner_recovery_ok" cycle)
      || (is_text (get "status" (get "github_runner" cycle)) "recovered"
          || is_text (get "status" (get "github_runner" cycle)) "process_running")

  abbrev is_headless_ready : Json → Bool
  is_headless_ready task =
      is_true (get "exists" task)
      && (is_true (get "trigger_at_startup" task)
          && python.casefold (str_or_empty python (get "logon_type" task)) == "s4u")

  abbrev activation : Json → Effect W Json
  activation task =
      if is_headless_ready task
      then attempt
          (do
            start ← services.run_watchdog_task
            pure (
                object (
                  ("ok", bool true)
                  ∷ ("status", text "already_ready")
                  ∷ ("task", task)
                  ∷ ("start", start)
                  ∷ [])))
          (λ _. pure (
            object (
              ("ok", bool false)
              ∷ ("status", text "persistence_start_failed")
              ∷ ("error_code", text "watchdog_task_start_failed")
              ∷ ("task", task)
              ∷ [])))
      else pure (
          object (
            ("ok", bool false)
            ∷ ("status", text "persistence_pending")
            ∷ ("error_code", text "watchdog_task_not_headless_ready")
            ∷ ("task", task)
            ∷ []))

  unfoldable pub recover_control_plane : Effect W Json
  recover_control_plane = do
    there ← reads services.watchdog_is_file
    fail_if (not there) broker_error "watchdog_metadata_missing"
    cycle ← services.watchdog_cycle
    fail_if (not (is_runner_recovered cycle)) broker_error "runner_recovery_failed"
    task ← services.watchdog_task_status
    active ← activation task
    pure (
        object (
          ("handler", text "recover-control-plane")
          ∷ ("activation", active)
          ∷ ("cycle", cycle)
          ∷ ("github_pickup_required", bool true)
          ∷ ("github_pickup_proven", bool false)
          ∷ ("local_recovery_ok", bool true)
          ∷ []))
