-- ===== src/Broker/LockExamples.antt =====
-- A lock file that another process holds for ten seconds; the state of the host is the clock.
use desktop_pc24x7_runtime.Prelude.{ℕ, ◌+◌, ◌*◌, true, none, some, ltb, if◌then◌else◌, arith}
use desktop_pc24x7_runtime.Result.{ok}
use desktop_pc24x7_runtime.Text.{second}
use desktop_pc24x7_runtime.Broker.Lock.{
  OsError, Files, lock_contention, try_lock_broker_file, acquire_broker_lock, acquire_metadata_lock,
}
use desktop_pc24x7_runtime.Broker.Lock.Held.{IsClock, IsOutcome, broker_locks-IsOutcome}

abbrev held : OsError
held = record { winerror = some 33; errno = 13 }

abbrev files : Files ℕ
files = record {
  is_windows = true;
  mkdir = λ now. (ok tt, now);
  open_file = λ name now. (ok tt, now);
  fill = λ now. (ok tt, now);
  seek = λ now. (ok tt, now);
  lock_byte = λ now. (if ltb now (10 * second) then some held else none, now);
  unlock_byte = λ now. (ok tt, now);
  close = λ now. (ok tt, now);
  monotonic = λ now. now;
  sleep = λ time now. now + time;
}

clock : IsClock files
unfolding try_lock_broker_file lock_contention
clock = record { sleeps = λ time w. ground arith; tries = λ w. ground arith }

broker_locks-IsOutcome_example :
    IsOutcome files "broker.lock" (acquire_broker_lock files 0)
    × IsOutcome files "metadata.lock" (acquire_metadata_lock files 0)
broker_locks-IsOutcome_example = broker_locks-IsOutcome files clock 0
