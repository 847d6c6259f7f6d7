-- ===== src/Broker/Lock.antt =====
-- The file locks of the broker: `_acquire_file_lock`, with its wait, and `_release_broker_lock`.
pub mod Held
use desktop_pc24x7_runtime.Prelude.{
  ℕ, zero, suc, ◌+◌, ◌-◌, ◌*◌, Bool, true, false, not, ◌||◌, Option, none, some, String, eqb, leb,
  ltb, if◌then◌else◌,
}
use desktop_pc24x7_runtime.Result.{Result, ok, raised, Exception, os_error, broker_error}
use desktop_pc24x7_runtime.Effect.{Effect, pure, fail, reads, lift, attempt, finally, ◌>>=◌, ◌>>◌}
use desktop_pc24x7_runtime.Text.{second}

-- An OSError; on Windows it may have a winerror.
pub record OsError : Type 0 where
  pub winerror : Option ℕ
  pub errno : ℕ

-- The lock file and the clock, over the states W of the host.
pub record Files (W : Type 0) : Type 0 where
  pub is_windows : Bool
  pub mkdir : Effect W (Unit {0})
  -- path.open("a+b"), and the byte that it is given if it has none.
  pub open_file : String → Effect W (Unit {0})
  pub fill : Effect W (Unit {0})
  -- handle.seek(0), and the locking of the byte: none where it went well.
  pub seek : Effect W (Unit {0})
  pub lock_byte : W → Option OsError × W
  pub unlock_byte : Effect W (Unit {0})
  pub close : Effect W (Unit {0})
  -- time.monotonic and time.sleep, in microseconds.
  pub monotonic : W → ℕ
  pub sleep : ℕ → W → W

abbrev in_use : Option ℕ → Bool → Bool
in_use none otherwise = otherwise
in_use (some code) otherwise = eqb code 32 || eqb code 33

-- errno.EACCES is 13; EAGAIN is 11.
unfoldable pub lock_contention : Bool → OsError → Bool
lock_contention true exc = in_use exc.winerror (eqb exc.errno 13 || eqb exc.errno 11)
lock_contention false exc = eqb exc.errno 13 || eqb exc.errno 11

abbrev pub minimum : ℕ → ℕ → ℕ
minimum a b = if leb a b then a else b

-- The shortest sleep, 0.01 seconds.
abbrev pub tick : ℕ
tick = 10000

-- max(0.01, poll_seconds)
abbrev pub step_of : ℕ → ℕ
step_of poll = if leb poll tick then tick else poll

module _ {W : Type 0} (files : Files W) where
  abbrev pub judge_lock : Option OsError × W → Result Bool × W
  judge_lock (none, w) = (ok true, w)
  judge_lock (some exc, w) =
      if lock_contention files.is_windows exc
      then (ok false, w)
      else fail broker_error "broker_lock_failed" w

  unfoldable pub try_lock_broker_file : Effect W Bool
  try_lock_broker_file = files.seek >> (λ w. judge_lock (files.lock_byte w))

  module _ (deadline poll : ℕ) (timeout_error : String) where
    -- Asleep for as long as the deadline lets it, and again; or the end of the wait.
    abbrev pub wait_turn : Effect W (Option (Unit {0})) → Effect W (Option (Unit {0}))
    wait_turn again w =
        if leb deadline (files.monotonic w)
        then fail broker_error timeout_error w
        else again (files.sleep (minimum (step_of poll) (deadline - files.monotonic w)) w)

    abbrev pub after_attempt : Effect W (Option (Unit {0})) → Bool → Effect W (Option (Unit {0}))
    after_attempt again true = pure (some tt)
    after_attempt again false = wait_turn again

    -- while True, on fuel; none is its end.
    unfoldable pub lock_loop : ℕ → Effect W (Option (Unit {0}))
    unfolding try_lock_broker_file
    lock_loop zero w = (ok none, w)
    lock_loop (suc n) w = (try_lock_broker_file >>= after_attempt (lock_loop n)) w

  abbrev open_failed : Exception → Effect W (Unit {0})
  open_failed exc = fail broker_error "broker_lock_open_failed"

  abbrev pub lock_opened : ℕ → ℕ → ℕ → String → Effect W (Option (Unit {0}))
  lock_opened fuel timeout poll timeout_error = do
    files.fill
    now ← reads files.monotonic
    lock_loop (now + timeout) poll timeout_error fuel

  -- except Exception: handle.close(); raise
  abbrev pub close_and_raise : Exception → Effect W (Option (Unit {0}))
  close_and_raise exc = files.close >> lift (raised exc)

  unfoldable pub acquire_file_lock : ℕ → String → ℕ → ℕ → String → Effect W (Option (Unit {0}))
  unfolding lock_loop
  acquire_file_lock fuel lock_file timeout poll timeout_error = do
    files.mkdir
    attempt (files.open_file lock_file) open_failed
    attempt (lock_opened fuel timeout poll timeout_error) close_and_raise

  -- A sleep of 0.25 seconds at each turn of 900 seconds.
  unfoldable pub acquire_broker_lock : Effect W (Option (Unit {0}))
  unfolding acquire_file_lock
  acquire_broker_lock =
      acquire_file_lock 3602 "broker.lock" (900 * second) 250000 "broker_lock_timeout"

  unfoldable pub acquire_metadata_lock : Effect W (Option (Unit {0}))
  unfolding acquire_file_lock
  acquire_metadata_lock =
      acquire_file_lock 122 "metadata.lock" (30 * second) 250000 "metadata_lock_timeout"

  unfoldable pub release_broker_lock : Effect W (Unit {0})
  release_broker_lock = finally (files.seek >> files.unlock_byte) files.close
