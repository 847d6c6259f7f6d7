-- ===== src/Broker/Actions/Execute.antt =====
-- `_windows_component_health` and `execute_action`.
use desktop_pc24x7_runtime.Prelude.{
  ℕ, Option, none, some, [], ◌∷◌, String, ◌==◌, Bool, true, false, ◌&&◌, if◌then◌else◌,
}
use desktop_pc24x7_runtime.Json.{Json, bool, num, text, get, is_dict, is_true, is_text, object}
use desktop_pc24x7_runtime.Result.{raised, broker_error, other_error}
use desktop_pc24x7_runtime.Effect.{Effect, pure, fail, lift, ◌>>=◌, ◌>>◌}
use desktop_pc24x7_runtime.Broker.Actions.{
  Services, File, absent, unreadable, holds, recover_runner, recover_rdc, recover_control_plane,
}

-- What execute_action returns, but for the time and the fields that never change.
pub record Executed : Type 0 where
  pub action : String
  pub comment_id : ℕ
  pub correlation_id : String
  pub result : Json

module _ {W : Type 0} (services : Services W) where
  abbrev pub health_report : Bool → Json → Json
  health_report reused payload = object (
      ("handler", text "windows-component-health")
      ∷ ("reused", bool reused)
      ∷ ("checkhealth_exit", get "checkhealth_exit" payload)
      ∷ ("scanhealth_exit", get "scanhealth_exit" payload)
      ∷ ("sfc_verifyonly_exit", get "sfc_verifyonly_exit" payload)
      ∷ ("configci_present", get "configci_present" payload)
      ∷ ("cipolicy_schema_present", get "cipolicy_schema_present" payload)
      ∷ [])

  abbrev pub is_completed : String → Json → Bool
  is_completed correlation_id payload =
      is_text (get "correlation_id" payload) correlation_id && is_true (get "completed" payload)

  abbrev pub health_payload : String → ℕ → ℕ → ℕ → Bool → Bool → Json
  health_payload correlation_id checkhealth scanhealth sfc configci schema = object (
      ("schema", text "desktop-windows-component-health/v1")
      ∷ ("correlation_id", text correlation_id)
      ∷ ("completed", bool true)
      ∷ ("production_touched", bool false)
      ∷ ("checkhealth_exit", num checkhealth)
      ∷ ("scanhealth_exit", num scanhealth)
      ∷ ("sfc_verifyonly_exit", num sfc)
      ∷ ("configci_present", bool configci)
      ∷ ("cipolicy_schema_present", bool schema)
      ∷ [])

  abbrev pub write_report : String → Json → Effect W Json
  write_report correlation_id payload = do
    services.write_health_evidence correlation_id payload
    pure (health_report false payload)

  abbrev pub write_all : String → ℕ → ℕ → ℕ → Effect W Json
  write_all correlation_id checkhealth scanhealth sfc w =
      write_report correlation_id
        (health_payload correlation_id checkhealth scanhealth sfc (services.configci_present w)
          (services.cipolicy_schema_present w))
        w

  abbrev pub verify_files : String → ℕ → ℕ → Effect W Json
  verify_files correlation_id checkhealth scanhealth = do
    sfc ← services.run_check "sfc.exe /verifyonly"
    write_all correlation_id checkhealth scanhealth sfc

  abbrev pub scan : String → ℕ → Effect W Json
  scan correlation_id checkhealth = do
    scanhealth ← services.run_check "dism.exe /Online /Cleanup-Image /ScanHealth"
    verify_files correlation_id checkhealth scanhealth

  abbrev pub check : String → Effect W Json
  check correlation_id = do
    checkhealth ← services.run_check "dism.exe /Online /Cleanup-Image /CheckHealth"
    scan correlation_id checkhealth

  abbrev pub check_on_windows : String → Effect W Json
  check_on_windows correlation_id =
      if services.is_windows
      then check correlation_id
      else fail broker_error "windows_component_health_requires_windows"

  abbrev pub reuse_or_check : String → File → Effect W Json
  reuse_or_check correlation_id absent = check_on_windows correlation_id
  reuse_or_check correlation_id (unreadable exc) = lift (raised exc)
  reuse_or_check correlation_id (holds payload) =
      if is_dict payload
      then (if is_completed correlation_id payload
          then pure (health_report true payload)
          else check_on_windows correlation_id)
      else fail (other_error "AttributeError") "get"

  unfoldable pub windows_component_health : String → Effect W Json
  windows_component_health correlation_id w =
      reuse_or_check correlation_id (services.health_evidence correlation_id w) w

  -- The branches of execute_action.
  unfoldable pub handler_of : String → String → Option (Effect W Json)
  unfolding recover_runner recover_rdc recover_control_plane windows_component_health
  handler_of action correlation_id =
      if action == "status"
      then some services.status
      else if action == "recover-rdc"
      then some (recover_rdc services correlation_id)
      else if action == "recover-runner"
      then some (recover_runner services)
      else if action == "recover-control-plane"
      then some (recover_control_plane services)
      else if action == "activate-watchdog"
      then some services.activate_watchdog
      else if action == "refresh-self"
      then some services.self_refresh
      else if action == "windows-component-health"
      then some (windows_component_health correlation_id)
      else if action == "qualify-orchestrator-runner-acl"
      then some (services.qualify_orchestrator_runner_acl correlation_id)
      else none

  abbrev pub handled : Option (Effect W Json) → Effect W Json
  handled none = fail broker_error "action_id não allowlisted"
  handled (some handler) = handler

  unfoldable pub execute_action : String → ℕ → Effect W Executed
  unfolding handler_of
  execute_action action comment_id = do
    result ← handled (handler_of action (services.correlation_id comment_id))
    pure (record {
      action = action;
      comment_id = comment_id;
      correlation_id = services.correlation_id comment_id;
      result = result;
    })
