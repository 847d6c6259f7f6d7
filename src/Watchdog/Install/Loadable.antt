-- ===== src/Watchdog/Install/Loadable.antt =====
-- What install has written is an installation that load_installed_metadata takes.
use desktop_pc24x7_runtime.Prelude.{
  ℕ, ◌≡◌, refl, Bool, true, false, not, ◌&&◌, List, [], ◌∷◌, String, ◌==◌, eq_refl, contains,
  if◌then◌else◌, arith,
}
use desktop_pc24x7_runtime.Json.{Json, text, bool, object}
use desktop_pc24x7_runtime.Result.{Result, ok, raised, Exception, watchdog_error}
use desktop_pc24x7_runtime.Effect.{Effect, resume, handle, attempt, fail_if, lift, pure, ◌>>◌}
use desktop_pc24x7_runtime.Watchdog.Stopping.{is_watchdog_error}
use desktop_pc24x7_runtime.Watchdog.Install.{Disk, holds, Place, release_of, watchdog_of}
use desktop_pc24x7_runtime.Watchdog.Install.Installer.{
  required_names, Desk, Installer, Installed, outside, write_file, copy_required, copy_release,
  metadata_of, activate, wait_for_prompt, finish, activate_all, is_headless, put_in_place,
  after_runner,
}

-- A property of the disk that the steps of an effect keep.
module _ {V : Type 0} (P : Disk → Type 0) where
  resume-keeps :
      {A B : Type 0} (step : Result A × Desk V) (next : A → Effect (Desk V) B)
      → P step.1.disk
      → ((a : A) (desk : Desk V) → P desk.disk → P (next a desk).1.disk)
      → P (resume step next).1.disk
  resume-keeps (ok a, desk) next p keeps = keeps a desk p
  resume-keeps (raised exc, desk) next p keeps = p

  handle-keeps :
      {A : Type 0} (step : Result A × Desk V) (handler : Exception → Effect (Desk V) A)
      → P step.1.disk
      → ((exc : Exception) (desk : Desk V) → P desk.disk → P (handler exc desk).1.disk)
      → P (handle step handler).1.disk
  handle-keeps (ok a, desk) handler p keeps = p
  handle-keeps (raised exc, desk) handler p keeps = keeps exc desk p

  outside-keeps :
      {A : Type 0} (step : Effect V A) (desk : Desk V) → P desk.disk → P (outside step desk).1.disk
  outside-keeps step desk p = p

-- The installation as it is written: its metadata, and the three files that are looked for.
pub record InPlace (metadata : Json) (watchdog launcher python_executable : String) (disk : Disk)
    : Type 0 where
  pub written : disk.metadata ≡ holds metadata
  pub has_watchdog : contains disk.files watchdog ≡ true
  pub has_launcher : contains disk.files launcher ≡ true
  pub has_python : contains disk.files python_executable ≡ true

module _ {V : Type 0} (place : Place) (installer : Installer V) where
  module _ (metadata : Json) (watchdog launcher python_executable : String) where
    abbrev P : Disk → Type 0
    P = InPlace metadata watchdog launcher python_executable

    write_file-keeps :
        (path : String) (desk : Desk V) → P desk.disk → P (write_file path desk).1.disk
    write_file-keeps path desk p = record {
      written = p.written;
      has_watchdog = ground (arith, p.has_watchdog);
      has_launcher = ground (arith, p.has_launcher);
      has_python = ground (arith, p.has_python);
    }

    activate-keeps :
        (python run_path : String) (desk : Desk V)
        → P desk.disk
        → P (activate place installer python run_path desk).1.disk
    activate-keeps python run_path desk p =
        resume-keeps P (outside (installer.register_boot_task python run_path) desk)
          (λ task d.
            resume (outside installer.run_watchdog_task d) (λ start. pure (started task start)))
          p
          (λ task d q.
            resume-keeps P (outside installer.run_watchdog_task d)
              (λ start. pure (started task start)) q (λ start e r. r))
      where
        started : Json → Json → Installed
        started task start = record {
          task = task;
          start = start;
          headless_boot_ready = is_headless place installer task;
          activation_pending = false;
        }

    wait_for_prompt-keeps :
        (exc : Exception) (desk : Desk V)
        → P desk.disk
        → P (wait_for_prompt place installer exc desk).1.disk
    wait_for_prompt-keeps exc desk p =
        go (is_watchdog_error exc.class && exc.message == "task_scheduler_access_denied")
      where
        pending : Json → Installed
        pending task = record {
          task = task;
          start =
              object (("started", bool false) ∷ ("reason", text "uac_activation_required") ∷ []);
          headless_boot_ready = false;
          activation_pending = true;
        }

        waiting : Effect (Desk V) Installed
        waiting d = resume (outside installer.task_status d) (λ task. pure (pending task))

        refused : Effect (Desk V) Installed
        refused = lift (raised exc)

        go : (denied : Bool) → P ((if denied then waiting else refused) desk).1.disk
        go true =
            resume-keeps P (outside installer.task_status desk) (λ task. pure (pending task)) p
              (λ task d q. q)
        go false = p

    activate_all-keeps :
        (runtime_root python : String) (desk : Desk V)
        → P desk.disk
        → P (activate_all place installer runtime_root python desk).1.disk
    activate_all-keeps runtime_root python desk p =
        resume-keeps P
          (attempt
            (activate place installer (place.resolve python) (place.join runtime_root "run.py"))
            (wait_for_prompt place installer) desk)
          (finish place installer runtime_root)
          (handle-keeps P
            (activate place installer (place.resolve python) (place.join runtime_root "run.py")
              desk)
            (wait_for_prompt place installer)
            (activate-keeps (place.resolve python) (place.join runtime_root "run.py") desk p)
            wait_for_prompt-keeps)
          (λ installed d q. write_file-keeps (place.join runtime_root "install-evidence.json") d q)

  -- The files of the installation that copy_release leaves.
  record HasFiles (watchdog python_executable : String) (disk : Disk) : Type 0 where
    has_watchdog : contains disk.files watchdog ≡ true
    has_python : contains disk.files python_executable ≡ true

  copy_required-keeps :
      (watchdog python_executable source scripts : String) (names : List String) (desk : Desk V)
      → HasFiles watchdog python_executable desk.disk
      → HasFiles watchdog python_executable
          (copy_required place installer source scripts names desk).1.disk
  unfolding copy_required
  copy_required-keeps watchdog python_executable source scripts [] desk p = p
  copy_required-keeps watchdog python_executable source scripts (name ∷ names) desk p =
      go (contains (desk.disk).files (place.join source name)) (
        copy_required-keeps watchdog python_executable source scripts names
          (write_file (place.join scripts name) desk).1
          (record {
            has_watchdog = ground (arith, p.has_watchdog);
            has_python = ground (arith, p.has_python);
          }))
    where
      rest : Effect (Desk V) (Unit {0})
      rest =
          write_file (place.join scripts name) >> copy_required place installer source scripts names

      go :
          (found : Bool)
          → HasFiles watchdog python_executable (rest desk).1.disk
          → HasFiles watchdog python_executable
              (resume
                (fail_if (not found) watchdog_error "script obrigatório ausente" desk)
                (λ done. rest)).1.disk
      go true q = q
      go false q = p

  copy_release-HasFiles :
      (source_root release_root python_executable : String) (desk : Desk V)
      → contains (desk.disk).files python_executable ≡ true
      → HasFiles
          (watchdog_of place release_root)
          python_executable
          (copy_release place installer source_root release_root desk).1.disk
  unfolding copy_release
  copy_release-HasFiles source_root release_root python_executable desk h =
      copy_required-keeps (watchdog_of place release_root) python_executable
        (place.join source_root "scripts") (place.join release_root "scripts") required_names
        (write_file (watchdog_of place release_root) desk).1
        (record {
          has_watchdog = ground (arith, eq_refl (watchdog_of place release_root));
          has_python = ground (arith, h);
        })

  module _ (source_sha python_executable runtime_root : String) (interval : ℕ) where
    abbrev release : String
    release = release_of place runtime_root source_sha

    abbrev metadata_at : String → String → String → Json
    metadata_at host runner now =
        metadata_of place installer host (place.lower source_sha) runtime_root release
          (place.resolve python_executable) runner interval now

    -- An installation that ended well is in place.
    abbrev pub IsInstalled : String → Result Installed × Desk V → Type 0
    IsInstalled host (ok installed, after) =
        (runner : String) × (now : String) × InPlace (metadata_at host runner now)
          (watchdog_of place release) (place.join runtime_root "run.py")
          (place.resolve python_executable) after.disk
    IsInstalled host (raised exc, after) = Unit

    placed :
        (host runner now : String) (outcome : Result Installed × Desk V)
        → InPlace
            (metadata_at host runner now)
            (watchdog_of place release)
            (place.join runtime_root "run.py")
            (place.resolve python_executable)
            outcome.1.disk
        → IsInstalled host outcome
    placed host runner now (ok installed, after) p = (runner, now, p)
    placed host runner now (raised exc, after) p = tt

    pub after_runner-IsInstalled :
        (source_root host runner : String) (desk : Desk V)
        → contains (desk.disk).files (place.resolve python_executable) ≡ true
        → IsInstalled host (
            after_runner place installer source_root source_sha python_executable runtime_root
              interval host runner desk)
    after_runner-IsInstalled source_root host runner desk h =
        go (copy_release place installer (place.resolve source_root) release desk) (
          copy_release-HasFiles (place.resolve source_root) release
            (place.resolve python_executable) desk h)
      where
        rest : Effect (Desk V) Installed
        rest d =
            resume
              (put_in_place place installer release runtime_root
                (metadata_at host runner (installer.now_iso d.rest)) d)
              (λ done. activate_all place installer runtime_root python_executable)

        go :
            (copied : Result (Unit {0}) × Desk V)
            → HasFiles (watchdog_of place release) (place.resolve python_executable) copied.1.disk
            → IsInstalled host (resume copied (λ done. rest))
        go (raised exc, d) q = tt
        go (ok tt, d) q = placed host runner (installer.now_iso d.rest) (rest d) (
            activate_all-keeps (metadata_at host runner (installer.now_iso d.rest))
              (watchdog_of place release) (place.join runtime_root "run.py")
              (place.resolve python_executable) runtime_root python_executable
              (put_in_place place installer release runtime_root
                (metadata_at host runner (installer.now_iso d.rest)) d).1
              (record {
                written = refl;
                has_watchdog = ground (arith, q.has_watchdog);
                has_launcher = ground (arith, eq_refl (place.join runtime_root "run.py"));
                has_python = ground (arith, q.has_python);
              }))
