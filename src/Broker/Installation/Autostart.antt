-- ===== src/Broker/Installation/Autostart.antt =====
-- The fallback at logon, a value of the user's Run key.
use desktop_pc24x7_runtime.Prelude.{
  Bool, true, false, not, ◌&&◌, ◌||◌, Option, none, some, [], ◌∷◌, String, ◌==◌,
}
use desktop_pc24x7_runtime.Json.{Json, bool, text, object}
use desktop_pc24x7_runtime.Result.{Result, ok, broker_error}
use desktop_pc24x7_runtime.Effect.{Effect, pure, fail, fail_if, lift, ◌>>◌}
use desktop_pc24x7_runtime.Broker.Activation.{Tools}
use desktop_pc24x7_runtime.Broker.Installation.{
  RunValue, Desk, KeyAccess, opens, not_there, denied, Site, require_windows_desktop,
}

abbrev pub autostart_mode : String
autostart_mode = "HKCU_RUN_AT_LOGON"

abbrev pub run_value : String
run_value = "DesktopPc24x7AdminBroker"

abbrev pub autostart_dict : Bool → Bool → Json
autostart_dict verified there = object (
    ("ok", bool verified)
    ∷ ("exists", bool there)
    ∷ ("mode", text autostart_mode)
    ∷ ("value_name", text run_value)
    ∷ ("readback_verified", bool verified)
    ∷ ("requires_admin", bool false)
    ∷ [])

module _ {V : Type 0} (tools : Tools V) (site : Site V) where
  unfoldable pub user_autostart_command : String → String → String
  user_autostart_command python_executable launcher =
      site.list2cmdline (site.resolve python_executable ∷ site.resolve launcher ∷ [])

  abbrev import_winreg : Effect (Desk V) (Unit {0})
  import_winreg = fail_if (not site.has_winreg) broker_error "winreg_unavailable"

  -- What the key holds, against the command.
  abbrev pub look_up : String → Option RunValue → KeyAccess → Effect (Desk V) Json
  look_up command (some found) opens =
      pure (autostart_dict (found.is_text && found.value == command) true)
  look_up command none opens = pure (autostart_dict false false)
  look_up command found not_there = pure (autostart_dict false false)
  look_up command found denied = fail broker_error "user_autostart_status_failed"

  unfoldable pub user_autostart_status : String → String → Effect (Desk V) Json
  unfolding require_windows_desktop user_autostart_command
  user_autostart_status python_executable launcher = do
    lift (require_windows_desktop tools site)
    import_winreg
    (λ desk.
        look_up (user_autostart_command python_executable launcher) desk.autostart
          (site.run_key desk.rest) desk)

  -- What was read back from the key, or none where one of the three calls raised an OSError.
  abbrev pub judge_read_back : String → Option RunValue × Desk V → Result Json × Desk V
  judge_read_back command (none, desk) = fail broker_error "user_autostart_registration_failed" desk
  judge_read_back command (some found, desk) =
      (do
        fail_if (not found.is_text || not (found.value == command)) broker_error
            "user_autostart_readback_mismatch"
        pure (autostart_dict true true))
        desk

  unfoldable pub register_user_autostart : String → String → Effect (Desk V) Json
  unfolding require_windows_desktop user_autostart_command
  register_user_autostart python_executable launcher = do
    lift (require_windows_desktop tools site)
    import_winreg
    (λ desk.
        judge_read_back (user_autostart_command python_executable launcher)
          (site.set_and_query (user_autostart_command python_executable launcher) desk))

  abbrev pub delete_value : KeyAccess → Effect (Desk V) (Unit {0})
  delete_value opens desk = (ok tt, record desk { autostart = none })
  delete_value not_there desk = (ok tt, desk)
  delete_value denied desk = fail broker_error "user_autostart_remove_failed" desk

  unfoldable pub remove_user_autostart : Effect (Desk V) (Unit {0})
  unfolding require_windows_desktop
  remove_user_autostart = do
    lift (require_windows_desktop tools site)
    import_winreg
    (λ desk. delete_value (site.run_key desk.rest) desk)
