-- ===== src/Broker/Installation/Register.antt =====
-- persist_task_activation and register_task_from_metadata: the registration from the elevated prompt.
pub mod Proven
pub mod Governed
use desktop_pc24x7_runtime.Prelude.{
  Bool, true, false, not, Option, none, some, List, [], ◌∷◌, String,
}
use desktop_pc24x7_runtime.Json.{Json, bool, text}
use desktop_pc24x7_runtime.Result.{Result, ok, raised, broker_error}
use desktop_pc24x7_runtime.Effect.{Effect, pure, fail, fail_if, lift, finally, ◌>>=◌, ◌>>◌}
use desktop_pc24x7_runtime.Broker.Activation.{Tools, task_ready, update}
use desktop_pc24x7_runtime.Broker.Installation.{
  holds, Desk, Site, Installed, load_installed_metadata,
}
use desktop_pc24x7_runtime.Broker.Installation.Scheduler.{register_task, task_status, run_task}
use desktop_pc24x7_runtime.Broker.Installation.Autostart.{remove_user_autostart}

abbrev pub activated : Json → Json → String → List (String × Json)
activated observed started now =
    ("activation_pending", bool false)
    ∷ ("requires_uac_activation", bool false)
    ∷ ("admin_channel_ready", bool true)
    ∷ ("admin_task", observed)
    ∷ ("admin_task_start", started)
    ∷ ("uac_activated_at", text now)
    ∷ []

module _ {V : Type 0} (tools : Tools V) (site : Site V) (now_iso : V → String) where
  abbrev pub load : String → Bool → Effect (Desk V) Installed
  load metadata_path require_current_release desk =
      (load_installed_metadata tools site metadata_path require_current_release desk, desk)

  -- atomic_json of the updated dict.
  abbrev pub write_activated : Json → Json → Installed → Effect (Desk V) Json
  write_activated observed started installed desk =
      let metadata = update (activated observed started (now_iso desk.rest)) installed.metadata in
      (ok metadata, record desk { metadata = holds metadata })

  abbrev pub locked : String → Json → Json → Effect (Desk V) Json
  locked metadata_path observed started =
      load metadata_path false >>= write_activated observed started

  abbrev pub release : Effect (Desk V) (Unit {0})
  release desk = (ok tt, record desk { rest = site.release_lock desk.rest })

  abbrev pub remove_fallback : Json → Effect (Desk V) Json
  remove_fallback metadata = remove_user_autostart tools site >> pure metadata

  abbrev pub write_under_lock : String → Json → Json → Unit {0} → Effect (Desk V) Json
  write_under_lock metadata_path observed started _ =
      finally (locked metadata_path observed started) release >>= remove_fallback

  abbrev pub lock_and_write : String → Json → Json → Unit {0} → Effect (Desk V) Json
  lock_and_write metadata_path observed started _ =
      site.acquire_lock >>= write_under_lock metadata_path observed started

  unfoldable pub persist_task_activation : String → Json → Json → Effect (Desk V) Json
  unfolding load_installed_metadata remove_user_autostart update task_ready
  persist_task_activation metadata_path observed started =
      fail_if (not (task_ready tools observed)) broker_error "task_registration_readback_failed"
      >>= lock_and_write metadata_path observed started

  abbrev pub after_start : Installed → Json → Json → Effect (Desk V) Json
  after_start installed observed started =
      persist_task_activation installed.metadata_path observed started

  abbrev pub start_ready : Installed → Json → Unit {0} → Effect (Desk V) Json
  start_ready installed observed _ = run_task tools site >>= after_start installed observed

  abbrev pub after_status : Installed → Json → Effect (Desk V) Json
  after_status installed observed =
      fail_if (not (task_ready tools observed)) broker_error "task_registration_readback_failed"
      >>= start_ready installed observed

  abbrev pub after_registration : Installed → Unit {0} → Effect (Desk V) Json
  after_registration installed _ = task_status tools site >>= after_status installed

  abbrev pub after_load : Installed → Effect (Desk V) Json
  after_load installed =
      register_task tools site installed.python_executable installed.launcher
      >>= after_registration installed

  -- It returns what it has put into metadata.json.
  unfoldable pub register_task_from_metadata : String → Effect (Desk V) Json
  unfolding load_installed_metadata register_task task_status run_task persist_task_activation
      task_ready
  register_task_from_metadata metadata_path = load metadata_path true >>= after_load
