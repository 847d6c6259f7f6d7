-- ===== src/Watchdog/Install/Installer.antt =====
-- install of the watchdog.
use desktop_pc24x7_runtime.Prelude.{
  ℕ, Bool, true, false, not, ◌&&◌, Option, List, [], ◌∷◌, String, ◌==◌, contains, leb,
  if◌then◌else◌,
}
use desktop_pc24x7_runtime.Json.{Json, num, text, bool, object, get, is_text}
use desktop_pc24x7_runtime.Result.{Result, ok, raised, Exception, watchdog_error}
use desktop_pc24x7_runtime.Effect.{Effect, pure, fail_if, lift, reads, attempt, ◌>>=◌, ◌>>◌}
use desktop_pc24x7_runtime.Text.{str_or_empty}
use desktop_pc24x7_runtime.Watchdog.Stopping.{is_watchdog_error}
use desktop_pc24x7_runtime.Watchdog.Install.{Disk, holds, Place, is_sha, release_of, watchdog_of}

abbrev pub confirm_text : String
confirm_text = "INSTALL-DESKTOP-PC24X7-RUNTIME-WATCHDOG"

-- RDC_RECOVERY_SCRIPT, UAC_LAUNCHER_SCRIPT and HOST_POLICY_SCRIPT.
abbrev pub required_names : List String
required_names =
    "pc24x7_rdc_recovery.py" ∷ "desktop_control_plane_watchdog_uac_launcher.py"
    ∷ "pc24x7_host_policy.py" ∷ []

-- The state: the disk and the rest of the host.
pub record Desk (V : Type 0) : Type 0 where
  pub disk : Disk
  pub rest : V

-- What install calls of the host and of the scheduler.
pub record Installer (V : Type 0) : Type 0 where
  -- require_windows_desktop, and discover_runner_home.
  pub require_windows_desktop : Effect V String
  pub discover_runner_home : Option String → Effect V String
  pub register_boot_task : String → String → Effect V Json
  pub run_watchdog_task : Effect V Json
  pub task_status : Effect V Json
  pub now_iso : V → String

pub record Installed : Type 0 where
  pub task : Json
  pub start : Json
  pub headless_boot_ready : Bool
  pub activation_pending : Bool

module _ {V A : Type 0} where
  abbrev on_rest : Disk → Result A × V → Result A × Desk V
  on_rest disk (result, rest) = (result, record { disk = disk; rest = rest })

  -- A step that leaves the disk alone.
  abbrev pub outside : Effect V A → Effect (Desk V) A
  outside step desk = on_rest desk.disk (step desk.rest)

module _ {V : Type 0} where
  -- A file that is written or copied is there.
  abbrev pub write_file : String → Effect (Desk V) (Unit {0})
  write_file path desk =
      (ok tt, record desk { disk = record desk.disk { files = path ∷ (desk.disk).files } })

  abbrev pub write_metadata : Json → Effect (Desk V) (Unit {0})
  write_metadata metadata desk =
      (ok tt, record desk { disk = record desk.disk { metadata = holds metadata } })

module _ {V : Type 0} (place : Place) (installer : Installer V) where
  -- The loop of _copy_release over the required scripts.
  unfoldable pub copy_required : String → String → List String → Effect (Desk V) (Unit {0})
  copy_required source scripts [] = pure tt
  copy_required source scripts (name ∷ names) = do
    files ← reads (λ desk. (desk.disk).files)
    fail_if (not (contains files (place.join source name))) watchdog_error
        "script obrigatório ausente"
    write_file (place.join scripts name)
    copy_required source scripts names

  unfoldable pub copy_release : String → String → Effect (Desk V) (Unit {0})
  unfolding copy_required
  copy_release source_root release_root = do
    write_file (watchdog_of place release_root)
    copy_required (place.join source_root "scripts") (place.join release_root "scripts")
        required_names

  abbrev pub metadata_of : String → String → String → String → String → String → ℕ → String → Json
  metadata_of host source_sha runtime_root release_root python_executable runner interval now =
      object (
        ("schema_version", text "1")
        ∷ ("service", text "desktop-pc24x7-runtime-watchdog")
        ∷ ("host", text host)
        ∷ ("source_sha", text source_sha)
        ∷ ("runtime_root", text runtime_root)
        ∷ ("release_root", text release_root)
        ∷ ("python_executable", text python_executable)
        ∷ ("runner_home", text runner)
        ∷ ("watch_interval_seconds", num (if leb interval 10 then 10 else interval))
        ∷ ("installed_at", text now)
        ∷ ("production_touched", bool false)
        ∷ ("secrets_read", bool false)
        ∷ [])

  abbrev pub is_headless : Json → Bool
  is_headless task =
      is_text (get "trigger" task) "AtStartup"
      && (place.python).casefold (str_or_empty place.python (get "logon_type" task)) == "s4u"

  abbrev pub activate : String → String → Effect (Desk V) Installed
  activate python_executable launcher = do
    task ← outside (installer.register_boot_task python_executable launcher)
    start ← outside installer.run_watchdog_task
    pure (record {
      task = task;
      start = start;
      headless_boot_ready = is_headless task;
      activation_pending = false;
    })

  -- except WatchdogError: without the right to register, the activation waits for the elevated prompt.
  abbrev pub wait_for_prompt : Exception → Effect (Desk V) Installed
  wait_for_prompt exc =
      if is_watchdog_error exc.class && exc.message == "task_scheduler_access_denied"
      then (do
        task ← outside installer.task_status
        pure (record {
          task = task;
          start =
              object (("started", bool false) ∷ ("reason", text "uac_activation_required") ∷ []);
          headless_boot_ready = false;
          activation_pending = true;
        }))
      else lift (raised exc)

  abbrev pub finish : String → Installed → Effect (Desk V) Installed
  finish runtime_root installed =
      write_file (place.join runtime_root "install-evidence.json") >> pure installed

  abbrev pub activate_all : String → String → Effect (Desk V) Installed
  activate_all runtime_root python_executable =
      attempt (activate (place.resolve python_executable) (place.join runtime_root "run.py"))
        wait_for_prompt
      >>= finish runtime_root

  -- The launcher and metadata.json are written.
  abbrev pub put_in_place : String → String → Json → Effect (Desk V) (Unit {0})
  put_in_place release_root runtime_root metadata =
      write_file (place.join runtime_root "run.py") >> write_metadata metadata

  abbrev pub after_runner :
      String → String → String → String → ℕ → String → String → Effect (Desk V) Installed
  after_runner source_root source_sha python_executable runtime_root interval host runner =
      let release_root = release_of place runtime_root source_sha in
      do
        copy_release (place.resolve source_root) release_root
        now ← reads (λ desk. installer.now_iso desk.rest)
        put_in_place release_root runtime_root (
            metadata_of host (place.lower source_sha) runtime_root release_root
              (place.resolve python_executable) runner interval now)
        activate_all runtime_root python_executable

  unfoldable pub install :
      String → String → String → Option String → String → ℕ → String → Effect (Desk V) Installed
  unfolding is_sha copy_release
  install source_root source_sha python_executable runner_home runtime_root interval confirm = do
    fail_if (not (confirm == confirm_text)) watchdog_error "confirmação inválida"
    host ← outside installer.require_windows_desktop
    fail_if (not (is_sha source_sha)) watchdog_error "source_sha inválido"
    runner ← outside (installer.discover_runner_home runner_home)
    after_runner source_root source_sha python_executable runtime_root interval host runner
