-- ===== src/Watchdog/Runner.antt =====
-- The GitHub runner of the host: its home, its version, its processes and its start.
pub mod Stop
pub mod Listener
use Prim.Native.String.{◌++◌}
use desktop_pc24x7_runtime.Prelude.{
  ℕ, zero, suc, ◌+◌, ◌*◌, Bool, true, false, not, ◌&&◌, ◌||◌, Option, none, some, List, [], ◌∷◌,
  String, ◌==◌, all, contains, eqb, ltb, if◌then◌else◌,
}
use desktop_pc24x7_runtime.Json.{num}
use desktop_pc24x7_runtime.Result.{
  Exception, ExceptionClass, Result, ok, raised, raise, watchdog_error, other_error,
}
use desktop_pc24x7_runtime.Effect.{Effect, pure, fail, fail_if, reads, attempt, ◌>>=◌, ◌>>◌}
use desktop_pc24x7_runtime.Text.{Python, second}
use desktop_pc24x7_runtime.Watchdog.Host.{Host, Launch, Completed}
use desktop_pc24x7_runtime.Watchdog.Version.{
  min_supported_runner_version, min_supported_parts, is_older, parse_runner_version,
}
use desktop_pc24x7_runtime.Watchdog.Environment.{child_environment}

pub record Snapshot : Type 0 where
  pub expected_executable : String
  pub matching_pids : List ℕ
  pub unresolved_pids : List ℕ
  pub observed : List (ℕ × String)

-- What start_runner returns; the fields that are always the same are left out.
pub record Started : Type 0 where
  pub status : String
  pub started : Bool
  pub launcher_pid : Option ℕ
  pub listener_pid : ℕ
  pub runner_version : String

module _ {W : Type 0} (host : Host W) where
  open host use {python}

  abbrev pub runner_required : List String
  runner_required = ".runner" ∷ "run.cmd" ∷ "bin/Runner.Listener.exe" ∷ []

  unfoldable pub validate_runner_home : String → Effect W String
  validate_runner_home path w =
      if all (λ parts. host.is_file (host.join (host.resolve path) parts) w) runner_required
      then (ok (host.resolve path), w)
      else fail watchdog_error "runner_home inválido; arquivos ausentes" w

  -- Returns the version that was observed.
  unfoldable pub inspect_runner_version : String → Effect W String
  unfolding validate_runner_home parse_runner_version
  inspect_runner_version runner_home = do
    root ← validate_runner_home runner_home
    completed ← host.run_version (host.join root "bin/Runner.Listener.exe")
    fail_if (not (eqb completed.returncode 0)) watchdog_error
        ("runner_version_unreadable:exit=" ++ python.str (num completed.returncode))
    observed_parts ← (λ w. (parse_runner_version host (python.strip completed.stdout), w))
    fail_if (is_older observed_parts min_supported_parts) watchdog_error (
        "runner_version_unsupported:"
        ++ (python.strip completed.stdout ++ (":minimum=" ++ min_supported_runner_version)))
    pure (python.strip completed.stdout)

  -- The first candidate that is a runner's home; a candidate seen before is passed over.
  unfoldable pub discover : List String → List String → Effect W String
  unfolding validate_runner_home
  discover before [] =
      fail watchdog_error
        "GitHub Actions runner não localizado; informe --runner-home uma única vez na instalação"
  discover before (candidate ∷ candidates) =
      if contains before (host.normcase candidate)
      then discover before candidates
      else attempt (validate_runner_home candidate)
          (λ _. discover (host.normcase candidate ∷ before) candidates)

  unfoldable pub discover_runner_home : Option String → List String → Effect W String
  unfolding discover
  discover_runner_home (some explicit) candidates = validate_runner_home explicit
  discover_runner_home none candidates = discover [] candidates

  abbrev pub sort_pid : String → ℕ → Option String → Snapshot → Snapshot
  sort_pid expected pid none rest = record rest { unresolved_pids = pid ∷ rest.unresolved_pids }
  sort_pid expected pid (some path) rest = record rest {
    observed = (pid, path) ∷ rest.observed;
    matching_pids =
        if host.normcase path == host.normcase expected
        then pid ∷ rest.matching_pids
        else rest.matching_pids;
  }

  -- The loop over the processes.
  unfoldable pub sort_pids : String → W → List ℕ → Snapshot
  sort_pids expected w [] = record {
    expected_executable = expected;
    matching_pids = [];
    unresolved_pids = [];
    observed = [];
  }
  sort_pids expected w (pid ∷ pids) =
      sort_pid expected pid (host.executable pid w) (sort_pids expected w pids)

  abbrev pub judge_pids : List ℕ → List ℕ → Snapshot → Result Snapshot
  judge_pids (_ ∷ _ ∷ _) unresolved snapshot =
      raise watchdog_error "mais de um listener pertence ao runner governado"
  judge_pids [] (_ ∷ _) snapshot = raise watchdog_error "runner_listener_identity_unverifiable"
  judge_pids [] [] snapshot = ok snapshot
  judge_pids (_ ∷ []) unresolved snapshot = ok snapshot

  abbrev pub expected_listener : String → String
  expected_listener home = host.resolve (host.join home "bin/Runner.Listener.exe")

  abbrev pub judge_snapshot : Snapshot → Result Snapshot
  judge_snapshot found = judge_pids found.matching_pids found.unresolved_pids found

  abbrev pub snapshot_at : String → W → Result (List ℕ) → Result Snapshot
  snapshot_at home w (ok pids) = judge_snapshot (sort_pids (expected_listener home) w pids)
  snapshot_at home w (raised exc) = raised exc

  unfoldable pub runner_process_snapshot : String → Effect W Snapshot
  unfolding validate_runner_home sort_pids
  runner_process_snapshot runner_home = do
    home ← validate_runner_home runner_home
    λ w. (snapshot_at home w (host.process_ids w), w)

  unfoldable pub is_orchestrator_runner_home : String → W → Bool
  is_orchestrator_runner_home home w = elim (host.getenv "LOCALAPPDATA" w) [
    | none ↦ false
    | some local ↦
        not (local == "")
        && host.normcase (host.resolve home)
          == host.normcase
              (host.resolve (host.join local "EngineeringOrchestratorDEV/GitHubRunner"))
  ]

  abbrev pub recovered : ℕ → String → ℕ → Started
  recovered launcher version listener = record {
    status = "recovered";
    started = true;
    launcher_pid = some launcher;
    listener_pid = listener;
    runner_version = version;
  }

  abbrev pub already : String → ℕ → Started
  already version listener = record {
    status = "process_running";
    started = false;
    launcher_pid = none;
    listener_pid = listener;
    runner_version = version;
  }

  -- The wait for the listener: a snapshot a second, until the deadline.
  abbrev pub on_snapshot : Effect W Started → (ℕ → Started) → Option ℕ → List ℕ → Effect W Started
  on_snapshot again found exit (pid ∷ _) = pure (found pid)
  on_snapshot again found (some exit) [] = fail watchdog_error "runner terminou durante startup"
  on_snapshot again found none [] = again

  abbrev pub look_again : Effect W Started → Bool → Effect W Started
  look_again look true = look
  look_again look false =
      fail watchdog_error "timeout aguardando Runner.Listener.exe do runner governado"

  unfoldable pub await_listener : ℕ → String → ℕ → ℕ → String → Effect W Started
  unfolding runner_process_snapshot
  await_listener zero home deadline launcher version w = fail (other_error "out of fuel") "" w
  await_listener (suc fuel) home deadline launcher version w =
      look_again
        (do
          current ← runner_process_snapshot home
          exit ← reads (host.poll launcher)
          on_snapshot
              (λ w. await_listener fuel home deadline launcher version (host.sleep second w))
              (recovered launcher version) exit current.matching_pids)
        (ltb (host.monotonic w) deadline) w

  -- Thirty seconds of polls, a second apart.
  abbrev pub start_fuel : ℕ
  start_fuel = 31

  -- os.environ.get("SystemRoot") or r"C:\\Windows"
  abbrev or_windows : Option String → String
  or_windows none = "C:\\Windows"
  or_windows (some root) = if root == "" then "C:\\Windows" else root

  -- The start of run.cmd: the process id of cmd.exe.
  unfoldable pub launch : String → String → Effect W ℕ
  unfolding child_environment is_orchestrator_runner_home
  launch home log_path = do
    root ← reads (host.getenv "SystemRoot")
    host.open_log log_path
    env ← reads (λ w.
        child_environment python.casefold (is_orchestrator_runner_home home w) (host.environ w))
    host.popen (record {
      args =
          host.join (or_windows root) "System32/cmd.exe"
          ∷ "/d"
          ∷ "/s"
          ∷ "/c"
          ∷ host.join home "run.cmd"
          ∷ [];
      cwd = home;
      env = env;
    })

  -- The process list is read again, for the field unresolved_pids alone.
  abbrev pub none_of : Result (List ℕ) → Result (List ℕ)
  none_of (ok _) = ok []
  none_of (raised exc) = raised exc

  abbrev is_watchdog_error : ExceptionClass → Bool
  is_watchdog_error watchdog_error = true
  is_watchdog_error _ = false

  abbrev pub is_unverifiable : Exception → Bool
  is_unverifiable exc =
      is_watchdog_error exc.class && exc.message == "runner_listener_identity_unverifiable"

  abbrev pub or_none : Result Snapshot → Effect W (List ℕ)
  or_none (ok snapshot) w = (ok snapshot.matching_pids, w)
  or_none (raised exc) w =
      (if is_unverifiable exc then none_of (host.process_ids w) else raised exc, w)

  -- The listeners found; where none can be told apart from another's, none.
  unfoldable pub listeners : String → Effect W (List ℕ)
  unfolding runner_process_snapshot
  listeners home w = or_none (runner_process_snapshot home w).0 (runner_process_snapshot home w).1

  abbrev pub start_or_keep : String → String → String → List ℕ → Effect W Started
  start_or_keep home log_path version (pid ∷ _) = pure (already version pid)
  start_or_keep home log_path version [] = do
    launcher ← launch home log_path
    λ w. await_listener start_fuel home (host.monotonic w + 30 * second) launcher version w

  unfoldable pub start_runner : String → String → Effect W Started
  unfolding inspect_runner_version listeners launch
  start_runner runner_home log_path = do
    home ← validate_runner_home runner_home
    version ← inspect_runner_version home
    pids ← listeners home
    start_or_keep home log_path version pids
