-- ===== src/Watchdog/Stopping/Ended.antt =====
-- The wait for the watchdog's lock ends, with the lock seen free or with an error.
use native.Mathlib.Nat.{suc-mul}
use desktop_pc24x7_runtime.Prelude.{
  ℕ, zero, suc, ◌+◌, ◌*◌, ◌≤◌, ◌≡◌, refl, Bool, true, false, Option, none, some, leb, if◌then◌else◌,
  arith,
}
use desktop_pc24x7_runtime.Result.{Result, ok, raised, watchdog_error}
use desktop_pc24x7_runtime.Effect.{Effect, fail}
use desktop_pc24x7_runtime.Watchdog.Stopping.{
  Stop, pause, bounded, is_busy, acquire_watch_lock, after_lock, lock_turns,
  wait_watchdog_lock_released, task_runtime_snapshot,
}

-- A clock that does not go back, and a sleep that is not cut short.
pub record IsClock {W : Type 0} (site : Stop W) : Type 0 where
  pub sleeps : (time : ℕ) (w : W) → site.monotonic w + time ≤ site.monotonic (site.sleep time w)
  pub locks : (w : W) → site.monotonic w ≤ site.monotonic (acquire_watch_lock site w).1
  pub looks : (w : W) → site.monotonic w ≤ site.monotonic (task_runtime_snapshot site w).1

pub bounded-30 : (timeout : ℕ) → bounded timeout ≤ 120 * pause
unfolding bounded
bounded-30 timeout = ground arith

module _ {W : Type 0} (site : Stop W) where
  -- The lock was free, and was closed again last of all.
  abbrev pub IsFree : W → Type 0
  IsFree after =
      (before : W) × (taken : W) × (acquire_watch_lock site before ≡ (ok tt, taken))
      × (after ≡ site.close taken)

  abbrev pub IsReleased : Result (Option ℕ) × W → Type 0
  IsReleased (ok (some attempts), after) = IsFree after
  IsReleased (ok none, after) = ⊥
  IsReleased (raised exc, after) = Unit

  module _ (clock : IsClock site) where
    -- A turn that starts with enough fuel leaves enough.
    pub turn-enough :
        (deadline fuel : ℕ) (w v : W)
        → deadline ≤ site.monotonic w + suc fuel * pause
        → site.monotonic w ≤ site.monotonic v
        → deadline ≤ site.monotonic (site.sleep pause v) + fuel * pause
    turn-enough deadline fuel w v enough later =
        ground (arith, clock.sleeps pause v, suc-mul fuel pause)

    after_lock-IsReleased :
        (again : ℕ → Effect W (Option ℕ)) (attempts : ℕ) (w : W) (locked : Result (Unit {0}) × W)
        → acquire_watch_lock site w ≡ locked
        → IsReleased (again attempts (site.sleep pause locked.1))
        → IsReleased (after_lock site again attempts locked)
    after_lock-IsReleased again attempts w (ok tt, v) e next = (w, v, e, refl)
    after_lock-IsReleased again attempts w (raised exc, v) e next = go (is_busy exc)
      where
        go :
            (busy : Bool)
            → IsReleased (if busy then again attempts (site.sleep pause v) else (raised exc, v))
        go true = next
        go false = tt

    lock_turns-IsReleased :
        (deadline fuel attempts : ℕ) (w : W)
        → deadline ≤ site.monotonic w + fuel * pause
        → IsReleased (lock_turns site deadline (suc fuel) attempts w)
    unfolding lock_turns
    lock_turns-IsReleased deadline zero attempts w enough =
        go (leb deadline (site.monotonic w)) (ground arith)
      where
        go :
            (past : Bool)
            → past ≡ true
            → IsReleased (
                if past
                then fail watchdog_error "watchdog.lock permaneceu ocupado após Stop" w
                else after_lock site
                    (lock_turns site deadline zero)
                    (suc attempts)
                    (acquire_watch_lock site w))
        go true h = tt
        go false h = cc
    lock_turns-IsReleased deadline (suc fuel) attempts w enough =
        go (leb deadline (site.monotonic w)) (
          after_lock-IsReleased (lock_turns site deadline (suc fuel)) (suc attempts) w
            (acquire_watch_lock site w) refl
            (lock_turns-IsReleased deadline fuel (suc attempts)
              (site.sleep pause (acquire_watch_lock site w).1)
              (turn-enough deadline fuel w (acquire_watch_lock site w).1 enough (clock.locks w))))
      where
        go :
            (past : Bool)
            → IsReleased (
                after_lock site
                  (lock_turns site deadline (suc fuel))
                  (suc attempts)
                  (acquire_watch_lock site w))
            → IsReleased (
                if past
                then fail watchdog_error "watchdog.lock permaneceu ocupado após Stop" w
                else after_lock site
                    (lock_turns site deadline (suc fuel))
                    (suc attempts)
                    (acquire_watch_lock site w))
        go true next = tt
        go false next = next

    pub wait_watchdog_lock_released-IsReleased :
        (timeout : ℕ) (w : W) → IsReleased (wait_watchdog_lock_released site timeout w)
    unfolding wait_watchdog_lock_released
    wait_watchdog_lock_released-IsReleased timeout w =
        lock_turns-IsReleased (site.monotonic w + bounded timeout) 120 0 w
          (ground (arith, bounded-30 timeout))
