-- ===== src/Supervisor/Targets.antt =====
-- `probe_target` and `recover_target`: what a cycle asks of a target, and the one recovery that each
-- kind of target has.
use Prim.Native.Char.{code}
use desktop_pc24x7_runtime.Prelude.{
  ℕ, ◌≡◌, true, false, ◌&&◌, ◌||◌, List, [], ◌∷◌, String, arith, ◌==◌, starts_with, ltb, leb, eqb,
  if◌then◌else◌, ◌⊎◌, not, eq_iff,
}
use desktop_pc24x7_runtime.Json.{
  Json, null, bool, num, text, obj, get, has_key, truthy, object, Fields, field,
}
use desktop_pc24x7_runtime.Result.{Result, ok, raise, supervisor_error, key_error}
use desktop_pc24x7_runtime.Effect.{Effect, pure, fail, lift, ◌>>=◌}
use desktop_pc24x7_runtime.Supervisor.Config.{text_of}

-- subprocess.CompletedProcess; an exit code of Windows is an unsigned number.
pub record Completed : Type 0 where
  pub returncode : ℕ
  pub stdout : String

pub data HttpReply : Type 0 where
  -- The status, and the number of bytes of the body that were read.
  response : ℕ → ℕ → HttpReply
  -- URLError, TimeoutError or OSError, by its name.
  failure : String → HttpReply

-- What the probes and recoveries call, on a machine whose state is `W`: the network, the processes,
-- the runner functions of scripts/desktop_control_plane_watchdog.py, and Python's functions on texts.
pub record Tools (W : Type 0) : Type 0 where
  pub http_get : String → Json → Effect W HttpReply
  pub run_command : List String → ℕ → Effect W Completed
  -- validate_runner_home and runner_process_snapshot: the number of matching listeners.
  pub count_listeners : String → Effect W ℕ
  -- start_runner: the fields of the dict that it returns.
  pub start_runner : String → String → Effect W Fields
  pub expandvars : String → String
  pub str : Json → String
  pub strip : String → String

-- target[key], which raises on a key that is not there.
unfoldable pub item_of : String → Json → Result Json
item_of key target = if has_key key target then ok (get key target) else raise key_error key

-- s.partition("|") without the separator.
unfoldable pub partition_bar : String → String × String
partition_bar String.[] = ("", "")
partition_bar (String.◌∷◌ c s) =
    let (before, after) = partition_bar s in
    if eqb (code c) b'|' then ("", s) else (String.◌∷◌ c before, after)

module _ {W : Type 0} (tools : Tools W) where
  abbrev answer : HttpReply → Json
  answer (response status bytes) = object (
      ("healthy", bool (leb 200 status && ltb status 300))
      ∷ ("status_code", num status)
      ∷ ("bytes", num bytes)
      ∷ [])
  answer (failure name) = object (("healthy", bool false) ∷ ("reason", text name) ∷ [])

  unfoldable pub probe_http : String → Json → Effect W Json
  probe_http url timeout =
      if not (starts_with url "http://127.0.0.1:")
      then fail supervisor_error "probe HTTP deve usar loopback"
      else (do reply ← tools.http_get url timeout; pure (answer reply))

  abbrev pub inspect_args : String → List String
  inspect_args container =
      "docker" ∷ "inspect" ∷ "--format"
      ∷ "{{.State.Status}}|{{if .State.Health}}{{.State.Health.Status}}{{end}}" ∷ container ∷ []

  abbrev container_state : String × String → Json
  container_state (status, health) = object (
      ("healthy", bool (status == "running" && (health == "" || health == "healthy")))
      ∷ ("container_status", text status)
      ∷ ("health_status", (if health == "" then null else text health))
      ∷ [])

  unfoldable pub probe_docker : String → Effect W Json
  probe_docker container = do
    result ← tools.run_command (inspect_args container) 20
    if not (eqb result.returncode 0)
        then pure (
            object (
              ("healthy", bool false)
              ∷ ("reason", text "container_missing_or_docker_unavailable")
              ∷ []))
        else pure (container_state (partition_bar (tools.strip result.stdout)))

  unfoldable pub probe_runner : String → Effect W Json
  probe_runner runner_home = do
    listeners ← tools.count_listeners runner_home
    pure (object (("healthy", bool (eqb listeners 1)) ∷ ("listener_count", num listeners) ∷ []))

  abbrev pub kind_of : Json → String
  kind_of target = text_of (get "kind" target)

  abbrev timeout_of : Json → Json
  timeout_of target =
      if has_key "timeout_seconds" target then get "timeout_seconds" target else num 5

  unfoldable pub probe_target : Json → Effect W Json
  unfolding probe_http probe_docker probe_runner item_of
  probe_target target =
      if kind_of target == "http"
      then (do url ← lift (item_of "url" target); probe_http (tools.str url) (timeout_of target))
      else if kind_of target == "docker"
      then (do container ← lift (item_of "container" target); probe_docker (tools.str container))
      else if kind_of target == "runner"
      then (do
        home ← lift (item_of "runner_home" target)
        probe_runner (tools.expandvars (tools.str home)))
      else fail supervisor_error "tipo nao suportado"

  abbrev pub restart_args : String → List String
  restart_args container = "docker" ∷ "restart" ∷ container ∷ []

  abbrev pub task_args : String → List String
  task_args task = "schtasks.exe" ∷ "/Run" ∷ "/TN" ∷ task ∷ []

  abbrev action : String → Json
  action name = object (("action", text name) ∷ ("exit_code", num 1) ∷ [])

  abbrev acted : String → Completed → Json
  acted name result = object (("action", text name) ∷ ("exit_code", num result.returncode) ∷ [])

  unfoldable pub recover_target : Json → Effect W Json
  unfolding item_of
  recover_target target =
      if kind_of target == "runner"
      then (do
        home ← lift (item_of "runner_home" target)
        log ← lift (item_of "log_path" target)
        started ←
            tools.start_runner (tools.expandvars (tools.str home))
              (tools.expandvars (tools.str log))
        pure (obj (field "action" (text "start_runner") started)))
      else if kind_of target == "docker"
      then (do
        container ← lift (item_of "container" target)
        result ← tools.run_command (restart_args (tools.str container)) 60
        pure (acted "restart_container" result))
      else if kind_of target == "http" && truthy (get "recovery_task" target)
      then (do
        result ← tools.run_command (task_args (tools.str (get "recovery_task" target))) 30
        pure (acted "run_scheduled_task" result))
      else pure (action "none")

  abbrev home_of : Json → String
  home_of target = tools.expandvars (tools.str (get "runner_home" target))

  abbrev log_of : Json → String
  log_of target = tools.expandvars (tools.str (get "log_path" target))

  -- What a probe of the target did to the machine: nothing, or one call, the one of its kind.
  abbrev pub IsProbe : Json → W → W → Type 0
  IsProbe target before after =
      (after ≡ before)
      ⊎ (((kind_of target ≡ "http")
            × (starts_with (tools.str (get "url" target)) "http://127.0.0.1:" ≡ true)
            × (after
                ≡ (tools.http_get (tools.str (get "url" target)) (timeout_of target) before).1))
          ⊎ (((kind_of target ≡ "docker")
                × (after
                    ≡ (tools.run_command (inspect_args (tools.str (get "container" target))) 20
                        before).1))
              ⊎ ((kind_of target ≡ "runner")
                  × (after ≡ (tools.count_listeners (home_of target) before).1))))

  -- What a recovery of the target did to the machine: nothing, or one call, the one of its kind.
  abbrev pub IsRecovery : Json → W → W → Type 0
  IsRecovery target before after =
      (after ≡ before)
      ⊎ (((kind_of target ≡ "runner")
            × (after ≡ (tools.start_runner (home_of target) (log_of target) before).1))
          ⊎ (((kind_of target ≡ "docker")
                × (after
                    ≡ (tools.run_command (restart_args (tools.str (get "container" target))) 60
                        before).1))
              ⊎ ((kind_of target ≡ "http")
                  × (truthy (get "recovery_task" target) ≡ true)
                  × (after
                      ≡ (tools.run_command (task_args (tools.str (get "recovery_task" target))) 30
                          before).1))))

  probe_target-IsProbe : (target : Json) (w : W) → IsProbe target w (probe_target target w).1
  unfolding probe_target probe_http probe_docker probe_runner item_of
  probe_target-IsProbe target w = ground (
    arith,
    eq_iff (kind_of target) "http",
    eq_iff (kind_of target) "docker",
    eq_iff (kind_of target) "runner",
  )

  recover_target-IsRecovery :
      (target : Json) (w : W) → IsRecovery target w (recover_target target w).1
  unfolding recover_target item_of
  recover_target-IsRecovery target w = ground (
    arith,
    eq_iff (kind_of target) "http",
    eq_iff (kind_of target) "docker",
    eq_iff (kind_of target) "runner",
  )

  -- Whatever a target says and however its probe and its recovery end, each does to the machine
  -- either nothing or one call, the one of its kind: a probe gets the URL of its target, which begins
  -- with "http://127.0.0.1:", inspects its own container or counts the listeners of its own runner's
  -- home; a recovery starts its own runner, restarts its own container, or runs the scheduled task that
  -- an HTTP target names.
  pub commands_allowlisted :
      (target : Json) (w : W)
      → IsProbe target w (probe_target target w).1 × IsRecovery target w (recover_target target w).1
  commands_allowlisted target w =
      (probe_target-IsProbe target w, recover_target-IsRecovery target w)
