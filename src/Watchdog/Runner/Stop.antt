-- ===== src/Watchdog/Runner/Stop.antt =====
-- `stop_runner` and `restart_runner`.
use desktop_pc24x7_runtime.Prelude.{
  ℕ, zero, suc, ◌+◌, ◌*◌, Bool, true, false, Option, none, some, List, [], ◌∷◌, String, eqb, ltb,
  if◌then◌else◌,
}
use desktop_pc24x7_runtime.Result.{watchdog_error, other_error}
use desktop_pc24x7_runtime.Effect.{Effect, pure, fail, fail_if, reads, ◌>>=◌, ◌>>◌}
use desktop_pc24x7_runtime.Text.{second}
use desktop_pc24x7_runtime.Watchdog.Host.{Host}
use desktop_pc24x7_runtime.Watchdog.Runner.{
  Started, validate_runner_home, runner_process_snapshot, start_runner,
}

pub record Stopped : Type 0 where
  pub stopped : Bool
  pub previous_listener_pid : Option ℕ

abbrev pub head_pid : List ℕ → Option ℕ
head_pid [] = none
head_pid (pid ∷ _) = some pid

abbrev pub is_found : List ℕ → Bool
is_found [] = false
is_found (_ ∷ _) = true

module _ {W : Type 0} (host : Host W) where
  -- runner_running of a runner's home, on Windows.
  unfoldable pub runner_running : String → Effect W Bool
  unfolding runner_process_snapshot
  runner_running home = do
    snapshot ← runner_process_snapshot host home
    pure (is_found snapshot.matching_pids)

  -- The wait for the end of the listener, and the test after it.
  abbrev pub last_look : Bool → Effect W Unit
  last_look running = fail_if running watchdog_error "timeout encerrando listener governado"

  unfoldable pub await_end : ℕ → String → ℕ → Effect W Unit
  unfolding runner_running
  await_end zero home deadline w = fail (other_error "out of fuel") "" w
  await_end (suc fuel) home deadline w = elim (ltb (host.monotonic w) deadline) [
    | true ↦
        (do
          running ← runner_running home
          if running
              then (λ w. await_end fuel home deadline (host.sleep 500000 w))
              else (do again ← runner_running home; last_look again))
          w
    | false ↦ (do again ← runner_running home; last_look again) w
  ]

  -- Fifteen seconds of polls, half a second apart.
  abbrev pub stop_fuel : ℕ
  stop_fuel = 31

  abbrev pub kill : String → Option ℕ → Effect W Unit
  kill home none = pure tt
  kill home (some pid) = do
    code ← host.taskkill pid
    running ← if eqb code 0 then pure false else runner_running home
    fail_if running watchdog_error "listener governado não pôde ser encerrado"
    start ← reads host.monotonic
    await_end stop_fuel home (start + 15 * second)

  abbrev pub is_some : Option ℕ → Bool
  is_some none = false
  is_some (some _) = true

  unfoldable pub stop_runner : String → Effect W Stopped
  unfolding validate_runner_home await_end
  stop_runner runner_home = do
    home ← validate_runner_home host runner_home
    snapshot ← runner_process_snapshot host home
    kill home (head_pid snapshot.matching_pids)
    pure (record {
      stopped = is_some (head_pid snapshot.matching_pids);
      previous_listener_pid = head_pid snapshot.matching_pids;
    })

  -- The result of the start, and the listener that was ended.
  unfoldable pub restart_runner : String → String → Effect W (Started × Option ℕ)
  unfolding stop_runner start_runner
  restart_runner runner_home log_path = do
    stopped ← stop_runner runner_home
    result ← start_runner host runner_home log_path
    pure (result, stopped.previous_listener_pid)
