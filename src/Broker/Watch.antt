-- ===== src/Broker/Watch.antt =====
-- `watch` of the broker: its heartbeat, its passes, and the two ways in which it hands over.
use desktop_pc24x7_runtime.Prelude.{
  ℕ, zero, suc, ◌≡◌, refl, Option, none, some, Bool, true, false, not, ◌&&◌, if◌then◌else◌,
}
use desktop_pc24x7_runtime.Json.{Json}
use desktop_pc24x7_runtime.Result.{Result, ok, raised, other_error, Exception}
use desktop_pc24x7_runtime.Effect.{
  with_result, Effect, fail, pure, reads, attempt, finally, last_of, ◌>>=◌, ◌>>◌,
}

-- What a heartbeat says.
pub data BrokerStatus : Type 0 where
  running handoff_to_elevated_task handoff_after_refresh degraded_retrying stopped : BrokerStatus

-- The state: the status in the heartbeat file, and the rest.
pub record Beating (V : Type 0) : Type 0 where
  pub heartbeat : Option BrokerStatus
  pub rest : V

-- What the loop calls. `load`, the pass and the repair may do anything to the rest.
pub record Loop (V : Type 0) : Type 0 where
  -- load_installed_metadata
  pub load : Effect (Beating V) Json
  pub acquire_broker_lock : Effect (Beating V) (Unit {0})
  pub release_broker_lock : V → V
  -- Whether _write_heartbeat can write its file.
  pub can_write : V → Bool
  pub write_error : Exception
  pub elevated_task_proven : Json → Bool
  -- task_ready(task_status())
  pub task_ready : Effect (Beating V) Bool
  -- _reconcile_activation_metadata_file
  pub reconcile : Effect (Beating V) Json
  -- process_once, and whether it asks for a restart.
  pub process_once : Json → Effect (Beating V) Bool
  -- The handler's load_state, its broker_error and atomic_json.
  pub record_error : Json → Exception → Effect (Beating V) (Unit {0})
  -- The sleeps of the interval: how many heartbeats they write.
  pub naps : Json → V → ℕ
  pub sleep : V → V

module _ {V : Type 0} (loop : Loop V) where
  unfoldable pub write_heartbeat : BrokerStatus → Effect (Beating V) (Unit {0})
  write_heartbeat status w =
      if loop.can_write w.rest
      then (ok tt, record w { heartbeat = some status })
      else (raised loop.write_error, w)

  abbrev hand_over : BrokerStatus → Effect (Beating V) (Option Json)
  hand_over status = do write_heartbeat status; pure none

  -- A pass and its heartbeat. Nothing is returned where the broker is to end.
  abbrev run_pass : Json → Effect (Beating V) (Option Json)
  run_pass metadata = do
    restart ← loop.process_once metadata
    write_heartbeat running
    if restart then hand_over handoff_after_refresh else pure (some metadata)

  abbrev hand_over_or_repair : Bool → Effect (Beating V) (Option Json)
  hand_over_or_repair true = hand_over handoff_to_elevated_task
  hand_over_or_repair false = do metadata ← loop.reconcile; run_pass metadata

  -- The try statement of the loop.
  abbrev cycle_body : Bool → Json → Effect (Beating V) (Option Json)
  cycle_body degraded metadata = do
    write_heartbeat running
    if degraded && loop.elevated_task_proven metadata
        then (do ready ← loop.task_ready; hand_over_or_repair ready)
        else run_pass metadata

  abbrev on_error : Json → Exception → Effect (Beating V) (Option Json)
  on_error metadata exc = do
    loop.record_error metadata exc
    write_heartbeat degraded_retrying
    pure (some metadata)

  unfoldable pub nap : ℕ → Effect (Beating V) (Unit {0})
  unfolding write_heartbeat
  nap zero w = (ok tt, w)
  nap (suc n) w =
      (do write_heartbeat running; (λ w. (ok tt, record w { rest = loop.sleep w.rest })); nap n) w

  -- The exit code 0, or the next turn.
  abbrev go_on : Effect (Beating V) ℕ → Option Json → Effect (Beating V) ℕ
  go_on again none = pure 0
  go_on again (some metadata) = do naps ← reads (λ w. loop.naps metadata w.rest); nap naps; again

  -- The loop, with an interrupt from the keyboard after `turns` turns, which no handler takes.
  unfoldable pub watch_loop : ℕ → Bool → Effect (Beating V) ℕ
  unfolding nap
  watch_loop zero degraded w = fail (other_error "KeyboardInterrupt") "" w
  watch_loop (suc turns) degraded w =
      (do
        metadata ← loop.load
        next ← attempt (cycle_body degraded metadata) (on_error metadata)
        go_on (watch_loop turns degraded) next)
        w

  abbrev pub beat : ℕ → Json → Effect (Beating V) ℕ
  beat turns metadata = do
    write_heartbeat running
    ready ←
        if loop.elevated_task_proven metadata
        then attempt loop.task_ready (λ _. pure false)
        else pure false
    watch_loop turns (not ready)

  abbrev pub release : Effect (Beating V) (Unit {0})
  release w = (ok tt, record w { rest = loop.release_broker_lock w.rest })

  -- The finally clause.
  abbrev pub farewell : Effect (Beating V) (Unit {0})
  farewell = finally (write_heartbeat stopped) release

  -- Without metadata, the finally clause stumbles on the name that is not bound, and frees the lock.
  abbrev pub beat_or_stumble : ℕ → Result Json → Effect (Beating V) ℕ
  beat_or_stumble turns (ok metadata) = finally (beat turns metadata) farewell
  beat_or_stumble turns (raised exc) =
      finally (fail (other_error "UnboundLocalError") "metadata") release

  abbrev pub load_and_beat : ℕ → Effect (Beating V) ℕ
  load_and_beat turns w = beat_or_stumble turns (loop.load w).0 (loop.load w).1

  unfoldable pub watch : ℕ → Effect (Beating V) ℕ
  unfolding watch_loop
  watch turns = do loop.load; loop.acquire_broker_lock; load_and_beat turns

  farewell-stopped :
      ((v : V) → loop.can_write v ≡ true)
      → (w : Beating V) → (farewell w).1.heartbeat ≡ some stopped
  unfolding write_heartbeat
  farewell-stopped writes w = rw (writes w.rest) refl

  finally-stopped :
      ((v : V) → loop.can_write v ≡ true)
      → (p : Result ℕ × Beating V) → (last_of p farewell).1.heartbeat ≡ some stopped
  finally-stopped writes (r, w) = go r (farewell w) (farewell-stopped writes w)
    where
      go :
          (r : Result ℕ) (q : Result (Unit {0}) × Beating V)
          → q.1.heartbeat ≡ some stopped
          → (with_result r q).1.heartbeat ≡ some stopped
      go r (ok _, w) h = h
      go r (raised _, w) h = h

  -- Let the heartbeat file be writable, the metadata load, and the lock be free. However the broker's
  -- loop then ends, by a hand-over, an error or an interrupt, the last heartbeat says stopped.
  pub watch-stopped :
      (writes : (v : V) → loop.can_write v ≡ true) (turns : ℕ) (w w1 w2 w3 : Beating V)
      {first second : Json}
      → loop.load w ≡ (ok first, w1)
      → loop.acquire_broker_lock w1 ≡ (ok tt, w2)
      → loop.load w2 ≡ (ok second, w3)
      → (watch turns w).1.heartbeat ≡ some stopped
  unfolding watch
  watch-stopped writes turns w w1 w2 w3 {first} {second} a b c =
      rw (a, b, c) (finally-stopped writes (beat turns second w3))
