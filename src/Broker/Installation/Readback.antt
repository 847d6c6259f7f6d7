-- ===== src/Broker/Installation/Readback.antt =====
-- What was registered is what is read back.
use desktop_pc24x7_runtime.Prelude.{
  ◌≡◌, refl, Bool, true, false, not, ◌||◌, ◌==◌, Option, none, some, String, arith,
}
use desktop_pc24x7_runtime.Json.{Json, get, field_of, text, num}
use desktop_pc24x7_runtime.Result.{Result, ok, raised, succeeded, other_error, broker_error}
use desktop_pc24x7_runtime.Effect.{Effect, resume, fail_if, pure, ◌>>◌}
use desktop_pc24x7_runtime.Text.{Python, str_or_empty}
use desktop_pc24x7_runtime.Broker.Activation.{Tools, task_ready}
use desktop_pc24x7_runtime.Broker.Installation.{
  RunValue, Task, Desk, KeyAccess, opens, Site, require_windows_desktop,
}
use desktop_pc24x7_runtime.Broker.Installation.Scheduler.{
  task_dict, task_of, connect, keep_definition, register_definition, register_task, task_status,
}
use desktop_pc24x7_runtime.Broker.Installation.Autostart.{
  autostart_dict, user_autostart_command, register_user_autostart, user_autostart_status,
  remove_user_autostart, judge_read_back, look_up,
}

-- str of a text is the text, and casefold of these two texts is in small letters.
pub record IsPlain (python : Python) : Type 0 where
  pub str : (s : String) → python.str (text s) ≡ s
  pub s4u : python.casefold "S4U" ≡ "s4u"
  pub highest : python.casefold "highest" ≡ "highest"

module _ {V : Type 0} (tools : Tools V) (site : Site V) where
  task_of-ready :
      (python_executable launcher : String)
      → IsPlain tools.python
      → task_ready tools (
          task_dict
            (λ n. (tools.python).str (num n))
            (task_of tools site python_executable launcher))
        ≡ true
  unfolding task_ready task_dict get field_of str_or_empty
  task_of-ready python_executable launcher plain =
      simp (plain.str "S4U", plain.str "highest", plain.s4u, plain.highest)

  keep_definition-kept :
      (task : Task) (desk : Desk V) (answer : Option String × V)
      → succeeded (keep_definition tools site task desk answer).0 ≡ true
      → (keep_definition tools site task desk answer).1.task ≡ some task
  keep_definition-kept task desk (none, rest) h = refl
  keep_definition-kept task desk (some detail, rest) h = ground arith

  register_task-kept :
      (python_executable launcher : String) (desk : Desk V)
      → succeeded (register_task tools site python_executable launcher desk).0 ≡ true
      → (register_task tools site python_executable launcher desk).1.task
        ≡ some (task_of tools site python_executable launcher)
  unfolding register_task
  register_task-kept python_executable launcher desk h = go (require_windows_desktop tools site) h
    where
      definition : Effect (Desk V) (Unit {0})
      definition = register_definition tools site (task_of tools site python_executable launcher)

      connecting : Bool → Result (Unit {0}) × Desk V
      connecting answers =
          resume (fail_if (not answers) (other_error "com_error") "Schedule.Service" desk)
            (λ _. definition)

      connected :
          (answers : Bool)
          → succeeded (connecting answers).0 ≡ true
          → (connecting answers).1.task ≡ some (task_of tools site python_executable launcher)
      connected true h =
          keep_definition-kept (task_of tools site python_executable launcher) desk
            (site.register_definition (task_of tools site python_executable launcher) desk.rest) h
      connected false h = cc

      steps : Result String → Result (Unit {0}) × Desk V
      steps host = resume (host, desk) (λ _. (connect tools site >> definition))

      go :
          (host : Result String)
          → succeeded (steps host).0 ≡ true
          → (steps host).1.task ≡ some (task_of tools site python_executable launcher)
      go (ok name) h = connected (site.scheduler_answers desk.rest) h
      go (raised exc) h = cc

  task_status-ready :
      (python_executable launcher : String) (desk : Desk V)
      → IsPlain tools.python
      → site.scheduler_answers desk.rest ≡ true
      → desk.task ≡ some (task_of tools site python_executable launcher)
      → (task_status tools site desk).0
        ≡ ok (
            task_dict
              (λ n. (tools.python).str (num n))
              (task_of tools site python_executable launcher))
  unfolding task_status
  task_status-ready python_executable launcher desk plain answers kept = rw (answers, kept)

  -- Once the registration of the task has gone well, and as long as the scheduler answers, the status
  -- of the task is one that the broker takes for ready: at startup, as S4U, with the highest run level
  -- and enabled.
  pub register_task-task_status :
      (python_executable launcher : String) (desk : Desk V)
      → IsPlain tools.python
      → succeeded (register_task tools site python_executable launcher desk).0 ≡ true
      → site.scheduler_answers (register_task tools site python_executable launcher desk).1.rest
        ≡ true
      → (status : Json) × ((task_status tools site
            (register_task tools site python_executable launcher desk).1).0
          ≡ ok status)
        × (task_ready tools status ≡ true)
  register_task-task_status python_executable launcher desk plain registered answers = (
    task_dict (λ n. (tools.python).str (num n)) (task_of tools site python_executable launcher),
    task_status-ready python_executable launcher
        (register_task tools site python_executable launcher desk).1 plain answers
        (register_task-kept python_executable launcher desk registered),
    task_of-ready python_executable launcher plain,
  )

  -- What QueryValueEx finds in the key is what the key holds then, and the key can be opened.
  abbrev pub KeyHolds : Option RunValue × Desk V → Type 0
  KeyHolds (none, desk) = Unit
  KeyHolds (some found, desk) = (desk.autostart ≡ some found) × (site.run_key desk.rest ≡ opens)

  abbrev status_of : String → Desk V → Result Json
  status_of command desk =
      (look_up tools site command desk.autostart (site.run_key desk.rest) desk).0

  look_up-verified :
      (command : String) (found : RunValue) (value : Option RunValue) (access : KeyAccess)
      (desk : Desk V)
      → value ≡ some found
      → access ≡ opens
      → found.is_text ≡ true
      → (found.value == command) ≡ true
      → (look_up tools site command value access desk).0 ≡ ok (autostart_dict true true)
  look_up-verified command found value access desk e f g h = rw (e, f, g, h)

  judge_read_back-verified :
      (command : String) (answer : Option RunValue × Desk V)
      → KeyHolds answer
      → succeeded (judge_read_back tools site command answer).0 ≡ true
      → status_of command (judge_read_back tools site command answer).1
        ≡ ok (autostart_dict true true)
  judge_read_back-verified command (none, desk) holds h = cc
  judge_read_back-verified command (some found, desk) (kept, opened) h =
      go found.is_text (found.value == command) refl refl h
    where
      go :
          (is_text same : Bool)
          → found.is_text ≡ is_text
          → (found.value == command) ≡ same
          → succeeded
              (resume
                (fail_if
                  (not is_text || not same)
                  broker_error
                  "user_autostart_readback_mismatch"
                  desk)
                (λ _. pure (autostart_dict true true))).0
            ≡ true
          → status_of command
              (resume
                (fail_if
                  (not found.is_text || not (found.value == command))
                  broker_error
                  "user_autostart_readback_mismatch"
                  desk)
                (λ _. pure (autostart_dict true true))).1
            ≡ ok (autostart_dict true true)
      go true true a b h =
          rw (a, b)
            (look_up-verified command found desk.autostart (site.run_key desk.rest) desk kept opened
              a b)
      go true false a b h = cc
      go false same a b h = cc

  -- Let what QueryValueEx finds be what the key holds. Then the fallback at logon, whose registration
  -- and removal end without an error, reads back as verified right after the registration and, where
  -- the Run key could be opened before the removal, as not there right after the removal.
  pub autostart-reads_back :
      (python_executable launcher : String) (desk : Desk V)
      → ((command : String) (w : Desk V) → KeyHolds (site.set_and_query command w))
      → site.run_key desk.rest ≡ opens
      → succeeded (register_user_autostart tools site python_executable launcher desk).0 ≡ true
      → succeeded (remove_user_autostart tools site desk).0 ≡ true
      → ((user_autostart_status tools site python_executable launcher
            (register_user_autostart tools site python_executable launcher desk).1).0
          ≡ ok (autostart_dict true true))
        × ((user_autostart_status tools site python_executable launcher
              (remove_user_autostart tools site desk).1).0
            ≡ ok (autostart_dict false false))
  unfolding register_user_autostart user_autostart_status remove_user_autostart
  autostart-reads_back python_executable launcher desk holds key registered removed =
      (go (require_windows_desktop tools site) site.has_winreg registered, ground arith)
    where
      command : String
      command = user_autostart_command tools site python_executable launcher

      go :
          (host : Result String) (there : Bool)
          → succeeded
              (resume
                (host, desk)
                (λ _.
                  fail_if (not there) broker_error "winreg_unavailable"
                  >> (λ w. judge_read_back tools site command (site.set_and_query command w)))).0
            ≡ true
          → (resume
              (
                host,
                (resume
                    (host, desk)
                    (λ _. fail_if (not there) broker_error "winreg_unavailable" >> (λ w.
                      judge_read_back tools site command (site.set_and_query command w)))).1,
              )
              (λ _.
                fail_if (not there) broker_error "winreg_unavailable"
                >> (λ w. look_up tools site command w.autostart (site.run_key w.rest) w))).0
            ≡ ok (autostart_dict true true)
      go (ok name) true h =
          judge_read_back-verified command (site.set_and_query command desk) (holds command desk) h
      go (ok name) false h = cc
      go (raised exc) there h = cc
