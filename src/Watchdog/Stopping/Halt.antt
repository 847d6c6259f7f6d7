-- ===== src/Watchdog/Stopping/Halt.antt =====
-- stop_watchdog_task: the task is seen to run no more, and then the lock free.

use desktop_pc24x7_runtime.Prelude.{
  ℕ, zero, suc, ◌+◌, ◌*◌, ◌≤◌, ◌≡◌, refl, Bool, true, false, not, Option, none, some, eqb, leb,
  if◌then◌else◌, arith,
}
use desktop_pc24x7_runtime.Result.{Result, ok, raised, watchdog_error}
use desktop_pc24x7_runtime.Effect.{Effect, fail, resume, ◌>>=◌}
use desktop_pc24x7_runtime.Watchdog.Stopping.{
  Stop, Stopped, pause, bounded, wait_watchdog_lock_released, task_runtime_snapshot, released,
  await_release, after_state, stop_turns, after_stop, after_before, stop_watchdog_task,
}
use desktop_pc24x7_runtime.Watchdog.Stopping.Ended.{
  IsClock, IsFree, IsReleased, bounded-30, turn-enough, wait_watchdog_lock_released-IsReleased,
}

module _ {W : Type 0} (site : Stop W) where
  -- The scheduler was asked, and gave a state that is not 4, which is running.
  abbrev pub IsSeenEnded : ℕ → Type 0
  IsSeenEnded state =
      (before : W) × (after : W) × (task_runtime_snapshot site before ≡ (ok state, after))
      × (eqb state 4 ≡ false)

  -- How stop_watchdog_task ends: with an error, or with a task whose reported state was read from the
  -- scheduler and is not running, and after that with the lock free.
  abbrev pub IsStopped : Result (Option Stopped) × W → Type 0
  IsStopped (ok (some result), after) = IsSeenEnded result.state_after × IsFree site after
  IsStopped (ok none, after) = ⊥
  IsStopped (raised exc, after) = Unit

  released-IsStopped :
      (stopped : Bool) (before state : ℕ) (waited : Result (Option ℕ) × W)
      → IsSeenEnded state
      → IsReleased site waited
      → IsStopped (resume waited (released site stopped before state))
  released-IsStopped stopped before state (ok (some attempts), w) ended free = (ended, free)
  released-IsStopped stopped before state (ok none, w) ended free = free
  released-IsStopped stopped before state (raised exc, w) ended free = tt

  module _ (clock : IsClock site) where
    await_release-IsStopped :
        (timeout : ℕ) (stopped : Bool) (before state : ℕ) (w : W)
        → IsSeenEnded state
        → IsStopped (await_release site timeout stopped before state w)
    await_release-IsStopped timeout stopped before state w ended =
        released-IsStopped stopped before state (wait_watchdog_lock_released site timeout w) ended
          (wait_watchdog_lock_released-IsReleased site clock timeout w)

    after_state-IsStopped :
        (again : Effect W (Option Stopped)) (timeout before : ℕ) (v : W) (looked : Result ℕ × W)
        → task_runtime_snapshot site v ≡ looked
        → IsStopped (again (site.sleep pause looked.1))
        → IsStopped (resume looked (after_state site again timeout before))
    after_state-IsStopped again timeout before v (raised exc, w) seen next = tt
    after_state-IsStopped again timeout before v (ok state, w) seen next = go (eqb state 4) refl
      where
        go :
            (running : Bool)
            → eqb state 4 ≡ running
            → IsStopped (
                (if not running
                    then await_release site timeout true before state
                    else (λ v. again (site.sleep pause v)))
                  w)
        go true e = next
        go false e = await_release-IsStopped timeout true before state w (v, w, seen, e)

    late :
        (past : Bool) (w : W) (turn : Result (Option Stopped) × W)
        → IsStopped turn
        → IsStopped (
            if past
            then fail watchdog_error "tarefa watchdog permaneceu em execução após Stop" w
            else turn)
    late true w turn ends = tt
    late false w turn ends = ends

    late_only :
        (past : Bool) (w : W) (turn : Result (Option Stopped) × W)
        → past ≡ true
        → IsStopped (
            if past
            then fail watchdog_error "tarefa watchdog permaneceu em execução após Stop" w
            else turn)
    late_only true w turn h = tt
    late_only false w turn h = cc

    stop_turns-IsStopped :
        (deadline fuel timeout before : ℕ) (w : W)
        → deadline ≤ site.monotonic w + fuel * pause
        → IsStopped (stop_turns site deadline (suc fuel) timeout before w)
    unfolding stop_turns
    stop_turns-IsStopped deadline zero timeout before w enough =
        late_only (leb deadline (site.monotonic w)) w
          ((task_runtime_snapshot site
              >>= after_state site (stop_turns site deadline zero timeout before) timeout before)
            w)
          (ground arith)
    stop_turns-IsStopped deadline (suc fuel) timeout before w enough =
        late (leb deadline (site.monotonic w)) w
          ((task_runtime_snapshot site
              >>= after_state site (stop_turns site deadline (suc fuel) timeout before) timeout
                  before)
            w)
          (after_state-IsStopped (stop_turns site deadline (suc fuel) timeout before) timeout before
            w (task_runtime_snapshot site w) refl
            (stop_turns-IsStopped deadline fuel timeout before
              (site.sleep pause (task_runtime_snapshot site w).1)
              (turn-enough site clock deadline fuel w (task_runtime_snapshot site w).1 enough
                (clock.looks w))))

    after_stop-IsStopped :
        (timeout before : ℕ) (answer : Bool × W) → IsStopped (after_stop site timeout before answer)
    after_stop-IsStopped timeout before (false, w) = tt
    after_stop-IsStopped timeout before (true, w) =
        stop_turns-IsStopped (site.monotonic w + bounded timeout) 120 timeout before w
          (ground (arith, bounded-30 timeout))

    -- With a clock that does not go back and sleeps that are not cut short, stop_watchdog_task ends:
    -- the turns of its two waits, 121 at most each, are enough. It ends with an error, or, whatever was
    -- to be done, with a state of the task that the scheduler reported and that is not running, and
    -- then with the lock of the watchdog taken and closed again last of all.
    pub stop_watchdog_task-IsStopped :
        (timeout : ℕ) (w : W) → IsStopped (stop_watchdog_task site timeout w)
    unfolding stop_watchdog_task
    stop_watchdog_task-IsStopped timeout w = go (task_runtime_snapshot site w) refl
      where
        second_look :
            (state : ℕ) (v : W) (running : Bool)
            → task_runtime_snapshot site w ≡ (ok state, v)
            → eqb state 4 ≡ running
            → IsStopped (
                (if not running
                    then await_release site timeout false state state
                    else (λ u. after_stop site timeout state (site.stop_task u)))
                  v)
        second_look state v true seen e = after_stop-IsStopped timeout state (site.stop_task v)
        second_look state v false seen e =
            await_release-IsStopped timeout false state state v (w, v, seen, e)

        go :
            (looked : Result ℕ × W)
            → task_runtime_snapshot site w ≡ looked
            → IsStopped (resume looked (after_before site timeout))
        go (raised exc, v) seen = tt
        go (ok state, v) seen = second_look state v (eqb state 4) seen refl
