-- ===== src/Broker/Installation/Scheduler.antt =====
-- The broker's task: register_task, task_status and run_task.
use Prim.Native.String.{◌++◌}
use desktop_pc24x7_runtime.Prelude.{
  ℕ, Bool, true, false, not, ◌||◌, Option, none, some, [], ◌∷◌, String, any, eqb, if◌then◌else◌,
}
use desktop_pc24x7_runtime.Json.{Json, bool, num, text, object}
use desktop_pc24x7_runtime.Result.{Result, ok, broker_error, other_error}
use desktop_pc24x7_runtime.Effect.{Effect, pure, fail, fail_if, lift, ◌>>=◌, ◌>>◌}
use desktop_pc24x7_runtime.Broker.Activation.{Tools}
use desktop_pc24x7_runtime.Broker.Installation.{Task, Desk, Site, require_windows_desktop}

-- TASK_TRIGGER_BOOT, TASK_LOGON_S4U and TASK_RUNLEVEL_HIGHEST.
abbrev pub trigger_boot : ℕ
trigger_boot = 8

abbrev pub logon_s4u : ℕ
logon_s4u = 2

abbrev pub run_level_highest : ℕ
run_level_highest = 1

-- The dict of a task that the scheduler has.
unfoldable pub task_dict : (ℕ → String) → Task → Json
task_dict str task = object (
    ("exists", bool true)
    ∷ ("trigger_at_startup", bool (any (λ trigger. eqb trigger trigger_boot) task.triggers))
    ∷ ("logon_type", text (if eqb task.logon_type logon_s4u then "S4U" else str task.logon_type))
    ∷ (
      "run_level",
      text (if eqb task.run_level run_level_highest then "highest" else str task.run_level),
    )
    ∷ ("enabled", bool task.is_enabled)
    ∷ [])

abbrev pub no_task : Json
no_task = object (("exists", bool false) ∷ ("trigger_at_startup", bool false) ∷ [])

module _ {V : Type 0} (tools : Tools V) (site : Site V) where
  -- The scheduler of the desk, or none where it does not answer.
  abbrev dict_of : Option Task → Bool → Json
  dict_of (some task) true = task_dict (λ n. (tools.python).str (num n)) task
  dict_of (some task) false = no_task
  dict_of none answers = no_task

  unfoldable pub task_status : Effect (Desk V) Json
  unfolding task_dict
  task_status desk = (ok (dict_of desk.task (site.scheduler_answers desk.rest)), desk)

  -- The definition that is registered.
  abbrev pub task_of : String → String → Task
  task_of python_executable launcher = record {
    triggers = trigger_boot ∷ [];
    program = python_executable;
    arguments = "\"" ++ (launcher ++ "\"");
    directory = site.parent launcher;
    user = site.current_user_id;
    logon_type = logon_s4u;
    run_level = run_level_highest;
    is_enabled = true;
  }

  abbrev is_access_denied : String → Bool
  is_access_denied detail =
      site.occurs "0x80070005" detail
      || (site.occurs "-2147024891" detail
          || (site.occurs "access is denied" detail || site.occurs "acesso negado" detail))

  abbrev pub keep_definition : Task → Desk V → Option String × V → Result (Unit {0}) × Desk V
  keep_definition task desk (none, rest) = (ok tt, record desk { task = some task; rest = rest })
  keep_definition task desk (some detail, rest) =
      if is_access_denied detail
      then fail broker_error "task_scheduler_access_denied" (record desk { rest = rest })
      else fail broker_error "registro do broker falhou" (record desk { rest = rest })

  abbrev pub register_definition : Task → Effect (Desk V) (Unit {0})
  register_definition task desk =
      keep_definition task desk (site.register_definition task desk.rest)

  -- _scheduler()
  abbrev pub connect : Effect (Desk V) (Unit {0})
  connect desk =
      fail_if (not (site.scheduler_answers desk.rest)) (other_error "com_error") "Schedule.Service"
        desk

  -- Its dict has the fixed values "AtStartup" and "S4U".
  unfoldable pub register_task : String → String → Effect (Desk V) (Unit {0})
  unfolding require_windows_desktop
  register_task python_executable launcher = lift (require_windows_desktop tools site) >>= λ host.
      (connect >> register_definition (task_of python_executable launcher))

  abbrev pub after_run : Desk V → ℕ × V → Result Json × Desk V
  after_run desk (returncode, rest) =
      if eqb returncode 0
      then pure (object (("run_returncode", num returncode) ∷ [])) (record desk { rest = rest })
      else fail broker_error "falha ao iniciar tarefa do broker" (record desk { rest = rest })

  unfoldable pub run_task : Effect (Desk V) Json
  run_task desk = after_run desk (site.run_task desk.rest)
