-- ===== src/Watchdog/Stopping.antt =====
-- The watchdog's own lock, the wait for its release, and stop_watchdog_task.
pub mod Ended
pub mod Halt
use desktop_pc24x7_runtime.Prelude.{
  ℕ, zero, suc, ◌+◌, ◌*◌, Bool, true, false, not, ◌&&◌, Option, none, some, String, ◌==◌, eqb, leb,
  if◌then◌else◌,
}
use desktop_pc24x7_runtime.Result.{
  Result, ok, raised, Exception, ExceptionClass, supervisor_error, watchdog_error, broker_error,
  recovery_error, claim_error, os_error, subprocess_error, value_error, type_error, key_error,
  other_error,
}
use desktop_pc24x7_runtime.Effect.{
  Effect, pure, fail, fail_if, reads, lift, attempt, handle, ◌>>=◌, ◌>>◌,
}
use desktop_pc24x7_runtime.Text.{second}

-- The lock file, the scheduler and the clock, over the states W of the host.
pub record Stop (W : Type 0) : Type 0 where
  pub is_windows : Bool
  -- The file of the lock: made, opened and given its byte.
  pub open_lock : Effect W (Unit {0})
  -- msvcrt.locking: whether it went well; false is an OSError.
  pub lock_byte : W → Bool × W
  pub close : W → W
  -- The state of the task, or none where the scheduler raises; 4 is TASK_STATE_RUNNING.
  pub task_state : W → Option ℕ × W
  -- task.Stop(0), and whether nothing raised.
  pub stop_task : W → Bool × W
  -- time.monotonic and time.sleep, in microseconds.
  pub monotonic : W → ℕ
  pub sleep : ℕ → W → W

abbrev pub busy_message : String
busy_message = "outro watchdog já está ativo"

-- time.sleep(0.25)
abbrev pub pause : ℕ
pause = 250000

-- max(1, min(timeout_seconds, 30)), in microseconds.
unfoldable pub bounded : ℕ → ℕ
bounded timeout =
    if leb 30 timeout then 30 * second else if leb timeout 1 then second else timeout * second

abbrev pub is_watchdog_error : ExceptionClass → Bool
is_watchdog_error watchdog_error = true
is_watchdog_error _ = false

-- except WatchdogError, with the message of a lock that is taken.
abbrev pub is_busy : Exception → Bool
is_busy exc = is_watchdog_error exc.class && exc.message == busy_message

module _ {W : Type 0} (site : Stop W) where
  abbrev pub judge_lock : Bool × W → Result (Unit {0}) × W
  judge_lock (true, w) = (ok tt, w)
  judge_lock (false, w) = fail watchdog_error busy_message (site.close w)

  unfoldable pub acquire_watch_lock : Effect W (Unit {0})
  acquire_watch_lock =
      site.open_lock >> (λ w. if site.is_windows then judge_lock (site.lock_byte w) else (ok tt, w))

  -- What a turn of the wait does with the lock: closes it at once, or sleeps and goes on.
  abbrev pub after_lock :
      (ℕ → Effect W (Option ℕ)) → ℕ → Result (Unit {0}) × W → Result (Option ℕ) × W
  after_lock again attempts (ok _, w) = (ok (some attempts), site.close w)
  after_lock again attempts (raised exc, w) =
      if is_busy exc then again attempts (site.sleep pause w) else (raised exc, w)

  -- while time.monotonic() < deadline, on fuel; ok none is its end.
  unfoldable pub lock_turns : ℕ → ℕ → ℕ → Effect W (Option ℕ)
  unfolding acquire_watch_lock
  lock_turns deadline zero attempts w = (ok none, w)
  lock_turns deadline (suc n) attempts w =
      let again = lock_turns deadline n in
      if leb deadline (site.monotonic w)
      then fail watchdog_error "watchdog.lock permaneceu ocupado após Stop" w
      else after_lock again (suc attempts) (acquire_watch_lock w)

  unfoldable pub wait_watchdog_lock_released : ℕ → Effect W (Option ℕ)
  unfolding lock_turns bounded
  wait_watchdog_lock_released timeout w = lock_turns (site.monotonic w + bounded timeout) 121 0 w

  abbrev pub state_or_raise : Option ℕ × W → Result ℕ × W
  state_or_raise (some state, w) = (ok state, w)
  state_or_raise (none, w) = fail watchdog_error "leitura runtime da tarefa watchdog falhou" w

  unfoldable pub task_runtime_snapshot : Effect W ℕ
  task_runtime_snapshot w =
      if site.is_windows
      then state_or_raise (site.task_state w)
      else fail watchdog_error "Windows Task Scheduler obrigatório" w

-- The dict of stop_watchdog_task; `state_after` is the state before where the task did not run.
pub record Stopped : Type 0 where
  pub stopped : Bool
  pub state_before : ℕ
  pub state_after : ℕ
  pub attempts : ℕ

module _ {W : Type 0} (site : Stop W) where
  abbrev pub released : Bool → ℕ → ℕ → Option ℕ → Effect W (Option Stopped)
  released stopped before after none w = (ok none, w)
  released stopped before after (some attempts) w = (
    ok (
        some (record {
          stopped = stopped;
          state_before = before;
          state_after = after;
          attempts = attempts;
        })),
    w,
  )

  abbrev pub await_release : ℕ → Bool → ℕ → ℕ → Effect W (Option Stopped)
  await_release timeout stopped before after =
      wait_watchdog_lock_released site timeout >>= released stopped before after

  abbrev pub after_state : (W → Result (Option Stopped) × W) → ℕ → ℕ → ℕ → Effect W (Option Stopped)
  after_state again timeout before state =
      if not (eqb state 4)
      then await_release timeout true before state
      else (λ w. again (site.sleep pause w))

  unfoldable pub stop_turns : ℕ → ℕ → ℕ → ℕ → Effect W (Option Stopped)
  unfolding task_runtime_snapshot wait_watchdog_lock_released
  stop_turns deadline zero timeout before w = (ok none, w)
  stop_turns deadline (suc n) timeout before w =
      let again = stop_turns deadline n timeout before in
      if leb deadline (site.monotonic w)
      then fail watchdog_error "tarefa watchdog permaneceu em execução após Stop" w
      else (task_runtime_snapshot site >>= after_state again timeout before) w

  abbrev pub after_stop : ℕ → ℕ → Bool × W → Result (Option Stopped) × W
  after_stop timeout before (false, w) = fail watchdog_error "tarefa watchdog não pôde ser parada" w
  after_stop timeout before (true, w) =
      stop_turns (site.monotonic w + bounded timeout) 121 timeout before w

  abbrev pub after_before : ℕ → ℕ → Effect W (Option Stopped)
  after_before timeout before =
      if not (eqb before 4)
      then await_release timeout false before before
      else (λ w. after_stop timeout before (site.stop_task w))

  unfoldable pub stop_watchdog_task : ℕ → Effect W (Option Stopped)
  unfolding stop_turns bounded task_runtime_snapshot wait_watchdog_lock_released
  stop_watchdog_task timeout = task_runtime_snapshot site >>= after_before timeout
