-- ===== src/Watchdog/StopExamples.antt =====
-- A task that runs until it is stopped; the state of the host is the clock and whether the task runs.
use desktop_pc24x7_runtime.Prelude.{ℕ, ◌+◌, Bool, true, false, some, if◌then◌else◌, arith}
use desktop_pc24x7_runtime.Result.{ok}
use desktop_pc24x7_runtime.Watchdog.Stopping.{
  Stop, acquire_watch_lock, task_runtime_snapshot, stop_watchdog_task,
}
use desktop_pc24x7_runtime.Watchdog.Stopping.Ended.{IsClock}
use desktop_pc24x7_runtime.Watchdog.Stopping.Halt.{IsStopped, stop_watchdog_task-IsStopped}

abbrev site : Stop (ℕ × Bool)
site = record {
  is_windows = true;
  open_lock = λ w. (ok tt, w);
  lock_byte = λ w. (true, w);
  close = λ w. w;
  task_state = λ w. (some (if w.1 then 4 else 3), w);
  stop_task = λ w. (true, (w.0, false));
  monotonic = λ w. w.0;
  sleep = λ time w. (w.0 + time, w.1);
}

clock : IsClock site
unfolding acquire_watch_lock task_runtime_snapshot
clock = record {
  sleeps = λ time w. ground arith;
  locks = λ w. ground arith;
  looks = λ w. ground arith;
}

stop_watchdog_task-IsStopped_example : IsStopped site (stop_watchdog_task site 15 (0, true))
stop_watchdog_task-IsStopped_example = stop_watchdog_task-IsStopped site clock 15 (0, true)
