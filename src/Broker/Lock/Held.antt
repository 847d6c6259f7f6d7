-- ===== src/Broker/Lock/Held.antt =====
-- The wait for a lock ends, and leaves no handle open behind an error.
use native.Mathlib.Nat.{suc-mul}
use desktop_pc24x7_runtime.Prelude.{
  ℕ, zero, suc, ◌+◌, ◌-◌, ◌*◌, ◌≤◌, ◌≡◌, refl, ap, Bool, true, false, Option, none, some, ◌⊎◌, inl,
  inr, String, leb, if◌then◌else◌, arith,
}
use desktop_pc24x7_runtime.Result.{Result, ok, raised, succeeded, Exception, broker_error}
use desktop_pc24x7_runtime.Effect.{Effect, fail, lift, attempt, handle, resume}
use desktop_pc24x7_runtime.Text.{second}
use desktop_pc24x7_runtime.Broker.Lock.{
  Files, minimum, step_of, try_lock_broker_file, wait_turn, after_attempt, lock_loop, lock_opened,
  close_and_raise, acquire_file_lock, acquire_broker_lock, acquire_metadata_lock,
}

-- A clock that does not go back, and a sleep that is not cut short.
pub record IsClock {W : Type 0} (files : Files W) : Type 0 where
  pub sleeps : (time : ℕ) (w : W) → files.monotonic w + time ≤ files.monotonic (files.sleep time w)
  pub tries : (w : W) → files.monotonic w ≤ files.monotonic (try_lock_broker_file files w).1

abbrev pub ran_out : Result (Option (Unit {0})) → Bool
ran_out (ok none) = true
ran_out (ok (some _)) = false
ran_out (raised _) = false

module _ {W : Type 0} (files : Files W) (clock : IsClock files) where
  module _ (deadline poll : ℕ) (timeout_error : String) where
    -- One sleep: the deadline, or a whole step.
    sleep-later :
        (w : W) (short : ℕ)
        → deadline ≤ files.monotonic w + (step_of poll + short * step_of poll)
        → deadline
          ≤ files.monotonic (files.sleep (minimum (step_of poll) (deadline - files.monotonic w)) w)
            + short * step_of poll
    sleep-later w short enough =
        ground (arith, clock.sleeps (minimum (step_of poll) (deadline - files.monotonic w)) w)

    wait_turn-ends :
        (again : Effect W (Option (Unit {0}))) (w : W)
        → (leb deadline (files.monotonic w) ≡ false
            → ran_out
                (again (files.sleep (minimum (step_of poll) (deadline - files.monotonic w)) w)).0
              ≡ false)
        → ran_out (wait_turn files deadline poll timeout_error again w).0 ≡ false
    wait_turn-ends again w next = go (leb deadline (files.monotonic w)) next
      where
        go :
            (past : Bool)
            → (past ≡ false
                → ran_out
                    (again
                      (files.sleep (minimum (step_of poll) (deadline - files.monotonic w)) w)).0
                  ≡ false)
            → ran_out
                (if past
                  then fail broker_error timeout_error w
                  else again
                      (files.sleep (minimum (step_of poll) (deadline - files.monotonic w)) w)).0
              ≡ false
        go true next = refl
        go false next = next refl

    after_attempt-ends :
        (again : Effect W (Option (Unit {0}))) (now : ℕ) (attempted : Result Bool × W)
        → now ≤ files.monotonic attempted.1
        → ((w : W)
            → now ≤ files.monotonic w
            → ran_out (wait_turn files deadline poll timeout_error again w).0 ≡ false)
        → ran_out (resume attempted (after_attempt files deadline poll timeout_error again)).0
          ≡ false
    after_attempt-ends again now (raised exc, w) later next = refl
    after_attempt-ends again now (ok true, w) later next = refl
    after_attempt-ends again now (ok false, w) later next = next w later

    lock_loop-ends :
        (fuel : ℕ) (w : W)
        → deadline ≤ files.monotonic w + fuel * step_of poll
        → ran_out (lock_loop files deadline poll timeout_error (suc fuel) w).0 ≡ false
    unfolding lock_loop
    lock_loop-ends zero w enough =
        after_attempt-ends (lock_loop files deadline poll timeout_error 0) (files.monotonic w)
          (try_lock_broker_file files w) (clock.tries w)
          (λ v later.
            wait_turn-ends (lock_loop files deadline poll timeout_error 0) v
              (λ ahead. ground arith))
    lock_loop-ends (suc short) w enough =
        after_attempt-ends (lock_loop files deadline poll timeout_error (suc short))
          (files.monotonic w) (try_lock_broker_file files w) (clock.tries w)
          (λ v later.
            wait_turn-ends (lock_loop files deadline poll timeout_error (suc short)) v (λ ahead.
              lock_loop-ends short
                (files.sleep (minimum (step_of poll) (deadline - files.monotonic v)) v)
                (sleep-later v short (ground (arith, suc-mul short (step_of poll))))))

module _ {W : Type 0} (files : Files W) where
  -- A wait that ended well ended with the lock taken.
  abbrev IsLocked : Result (Option (Unit {0})) × W → Type 0
  IsLocked (ok (some _), after) =
      (before : W) × (try_lock_broker_file files before ≡ (ok true, after))
  IsLocked (ok none, after) = Unit
  IsLocked (raised exc, after) = Unit

  module _ (deadline poll : ℕ) (timeout_error : String) where
    wait_turn-IsLocked :
        (again : Effect W (Option (Unit {0}))) (w : W)
        → ((v : W) → IsLocked (again v))
        → IsLocked (wait_turn files deadline poll timeout_error again w)
    wait_turn-IsLocked again w next = go (leb deadline (files.monotonic w))
      where
        go :
            (past : Bool)
            → IsLocked (
                if past
                then fail broker_error timeout_error w
                else again (files.sleep (minimum (step_of poll) (deadline - files.monotonic w)) w))
        go true = tt
        go false = next (files.sleep (minimum (step_of poll) (deadline - files.monotonic w)) w)

    after_attempt-IsLocked :
        (again : Effect W (Option (Unit {0}))) (w : W) (attempted : Result Bool × W)
        → try_lock_broker_file files w ≡ attempted
        → ((v : W) → IsLocked (again v))
        → IsLocked (resume attempted (after_attempt files deadline poll timeout_error again))
    after_attempt-IsLocked again w (raised exc, v) e next = tt
    after_attempt-IsLocked again w (ok true, v) e next = (w, e)
    after_attempt-IsLocked again w (ok false, v) e next = wait_turn-IsLocked again v next

    lock_loop-IsLocked :
        (fuel : ℕ) (w : W) → IsLocked (lock_loop files deadline poll timeout_error fuel w)
    unfolding lock_loop
    lock_loop-IsLocked zero w = tt
    lock_loop-IsLocked (suc fuel) w =
        after_attempt-IsLocked (lock_loop files deadline poll timeout_error fuel) w
          (try_lock_broker_file files w) refl (lock_loop-IsLocked fuel)

  -- How the taking of a lock ends: with the lock, or with an error behind which the file was closed, or
  -- was never opened.
  abbrev pub IsOutcome : String → Result (Option (Unit {0})) × W → Type 0
  IsOutcome lock_file (ok (some _), after) =
      (before : W) × (try_lock_broker_file files before ≡ (ok true, after))
  IsOutcome lock_file (ok none, after) = ⊥
  IsOutcome lock_file (raised exc, after) =
      ((before : W) × ((files.close before).1 ≡ after))
      ⊎ ((before : W) × (succeeded (files.mkdir before).0 ≡ false)
          × ((files.mkdir before).1 ≡ after))
      ⊎ ((before : W) × (succeeded (files.open_file lock_file before).0 ≡ false)
          × ((files.open_file lock_file before).1 ≡ after))

  closing-IsOutcome :
      (lock_file : String) (exc : Exception) (v : W) (closed : Result (Unit {0}) × W)
      → files.close v ≡ closed
      → IsOutcome lock_file (resume closed (λ _. lift (raised exc)))
  closing-IsOutcome lock_file exc v (ok tt, u) e =
      inl (v, ap (λ (p : Result (Unit {0}) × W). p.1) e)
  closing-IsOutcome lock_file exc v (raised other, u) e =
      inl (v, ap (λ (p : Result (Unit {0}) × W). p.1) e)

  waited-IsOutcome :
      (lock_file : String) (waited : Result (Option (Unit {0})) × W)
      → IsLocked waited
      → ran_out waited.0 ≡ false
      → IsOutcome lock_file (handle waited (close_and_raise files))
  waited-IsOutcome lock_file (ok (some tt), v) locked ends = locked
  waited-IsOutcome lock_file (ok none, v) locked ends = cc
  waited-IsOutcome lock_file (raised exc, v) locked ends =
      closing-IsOutcome lock_file exc v (files.close v) refl

  module _ (clock : IsClock files) (fuel timeout poll : ℕ) (enough : timeout ≤ fuel * step_of poll)
      (timeout_error : String) where
    filled-IsOutcome :
        (lock_file : String) (filled : Result (Unit {0}) × W)
        → IsOutcome lock_file (
            handle
              (resume filled (λ _ w.
                lock_loop files (files.monotonic w + timeout) poll timeout_error (suc fuel) w))
              (close_and_raise files))
    filled-IsOutcome lock_file (raised exc, v) =
        closing-IsOutcome lock_file exc v (files.close v) refl
    filled-IsOutcome lock_file (ok tt, v) =
        waited-IsOutcome lock_file
          (lock_loop files (files.monotonic v + timeout) poll timeout_error (suc fuel) v)
          (lock_loop-IsLocked (files.monotonic v + timeout) poll timeout_error (suc fuel) v)
          (lock_loop-ends files clock (files.monotonic v + timeout) poll timeout_error fuel v
            (ground arith))

    opened-IsOutcome :
        (lock_file : String) (w : W) (opened : Result (Unit {0}) × W)
        → files.open_file lock_file w ≡ opened
        → IsOutcome lock_file (
            resume (handle opened (λ exc. fail broker_error "broker_lock_open_failed")) (λ _.
              attempt
                (lock_opened files (suc fuel) timeout poll timeout_error)
                (close_and_raise files)))
    opened-IsOutcome lock_file w (ok tt, v) e = filled-IsOutcome lock_file (files.fill v)
    opened-IsOutcome lock_file w (raised exc, v) e = inr (
        inr (
          w,
          ap (λ (p : Result (Unit {0}) × W). succeeded p.0) e,
          ap (λ (p : Result (Unit {0}) × W). p.1) e,
        ))

    acquire_file_lock-IsOutcome :
        (lock_file : String) (w : W)
        → IsOutcome lock_file
            (acquire_file_lock files (suc fuel) lock_file timeout poll timeout_error w)
    unfolding acquire_file_lock
    acquire_file_lock-IsOutcome lock_file w = go (files.mkdir w) refl
      where
        go :
            (made : Result (Unit {0}) × W)
            → files.mkdir w ≡ made
            → IsOutcome lock_file (
                resume made (λ _ v.
                  resume
                    (attempt
                      (files.open_file lock_file)
                      (λ exc. fail broker_error "broker_lock_open_failed")
                      v)
                    (λ _.
                      attempt
                        (lock_opened files (suc fuel) timeout poll timeout_error)
                        (close_and_raise files))))
        go (ok tt, v) e = opened-IsOutcome lock_file v (files.open_file lock_file v) refl
        go (raised exc, v) e = inr (
            inl (
              w,
              ap (λ (p : Result (Unit {0}) × W). succeeded p.0) e,
              ap (λ (p : Result (Unit {0}) × W). p.1) e,
            ))

  -- With a clock that does not go back and sleeps that are not cut short, taking a lock of the broker
  -- ends, as does taking the one of the metadata: 3602 and 122 turns of the loop are enough. It ends with
  -- the lock taken last of all, or with an error, and then the file was closed last of all or had not
  -- been opened.
  pub broker_locks-IsOutcome :
      (clock : IsClock files) (w : W)
      → IsOutcome "broker.lock" (acquire_broker_lock files w)
        × IsOutcome "metadata.lock" (acquire_metadata_lock files w)
  unfolding acquire_broker_lock acquire_metadata_lock
  broker_locks-IsOutcome clock w = (
    acquire_file_lock-IsOutcome clock 3601 (900 * second) 250000 (ground arith)
        "broker_lock_timeout" "broker.lock" w,
    acquire_file_lock-IsOutcome clock 121 (30 * second) 250000 (ground arith)
        "metadata_lock_timeout" "metadata.lock" w,
  )
