-- ===== src/Rdc/Recover.antt =====
-- `recover`: the headless owner first, if it is guarded, and the interactive one as its fallback.
use desktop_pc24x7_runtime.Prelude.{
  ℕ, zero, suc, ◌+◌, ◌*◌, Bool, true, false, not, ◌&&◌, Option, none, some, List, [], ◌∷◌, ◌++◌,
  String, ◌==◌, contains, eqb, ltb, if◌then◌else◌,
}
use desktop_pc24x7_runtime.Result.{ok, recovery_error, other_error}
use desktop_pc24x7_runtime.Effect.{Effect, pure, fail, fail_if, reads, ◌>>=◌, ◌>>◌}
use desktop_pc24x7_runtime.Text.{Python, second}
use desktop_pc24x7_runtime.Rdc.Claim.{Claim, ClaimFile, unfresh, read_claim}

abbrev pub expected_host : String
expected_host = "DESKTOP-PDQK954"

abbrev pub task_headless : String
task_headless = "\\Automation\\RemoteDesktopCommanderHeadless"

abbrev pub task_interactive : String
task_interactive = "\\Automation\\RemoteDesktopCommander"

abbrev pub transport_marker : String
transport_marker = "// RDC_HEADLESS_V4_TRANSPORT_GUARD"

abbrev pub headless_markers : List String
headless_markers =
    "// RDC_HEADLESS_V2_PRIMARY_OWNER" ∷ "// RDC_HEADLESS_V3_READY_CLAIM" ∷ transport_marker ∷ []

abbrev pub interactive_markers : List String
interactive_markers =
    "REM RDC_LAUNCHER_V3_RESILIENT" ∷ "REM RDC_LAUNCHER_V4_ARBITRATED"
    ∷ "REM RDC_LAUNCHER_V5_READY_CLAIM" ∷ []

abbrev pub confirm_text : String
confirm_text = "RECOVER-GOVERNED-RDC"

-- The verbs of schtasks.exe.
pub data Verb : Type 0 where
  query end run : Verb

-- The host as the script meets it, over its states W.
pub record Machine (W : Type 0) : Type 0 where
  pub python : Python
  pub is_windows : Bool
  pub hostname : String
  -- The text of the runner and of the launcher, if the file is there.
  pub headless_source : W → Option String
  pub interactive_source : W → Option String
  -- `value in text`
  pub occurs : String → String → Bool
  -- schtasks_path, and the exit code of schtasks.exe on a task.
  pub schtasks : Verb → String → Effect W ℕ
  pub claim_file : W → ClaimFile
  pub now : W → ℕ
  -- time.monotonic and time.sleep, in microseconds.
  pub monotonic : W → ℕ
  pub sleep : ℕ → W → W
  -- HEADLESS_CLAIM.unlink(missing_ok=True): whether it went well.
  pub unlink_claim : W → Bool × W

-- The dict of validate_headless_source and validate_interactive_source.
pub record Source : Type 0 where
  pub exists : Bool
  pub governed : Bool
  pub marker : Option String

-- next((value for value in markers if value in text), None)
unfoldable pub first_marker : (String → Bool) → List String → Option String
first_marker found [] = none
first_marker found (value ∷ values) = if found value then some value else first_marker found values

abbrev is_some : Option String → Bool
is_some none = false
is_some (some _) = true

unfoldable pub validate_source : (String → String → Bool) → List String → Option String → Source
validate_source occurs markers none = record { exists = false; governed = false; marker = none }
validate_source occurs markers (some text) =
    let marker = first_marker (λ value. occurs value text) markers in
    record { exists = true; governed = is_some marker; marker = marker }

pub record Restart : Type 0 where
  pub end_returncode : ℕ
  pub run_returncode : ℕ

-- The elements of `attempts`.
pub data Attempt : Type 0 where
  headless_restart : Restart → Option Claim → Attempt
  headless_suppressed : ℕ → Bool → Attempt
  interactive_restart : Restart → Attempt

-- What the two halves of `recover` find.
pub record Headless : Type 0 where
  pub attempts : List Attempt
  pub ready : Bool
  pub claim : Claim

pub record Interactive : Type 0 where
  pub attempts : List Attempt
  pub started : Bool

-- What `recover` returns, but for the fixed fields and the correlation id.
pub record Payload : Type 0 where
  pub host : String
  pub owner : String
  pub mode : String
  pub task : String
  pub attempts : List Attempt
  pub headless_source : Source
  pub headless_transport_guarded : Bool
  pub headless_claim : Claim
  pub interactive_source : Source
  pub fallback_armed : Bool

module _ {W : Type 0} (machine : Machine W) where
  open machine use {python}

  unfoldable pub validate_host : Effect W String
  validate_host = do
    fail_if (not machine.is_windows) recovery_error "Windows obrigatório"
    fail_if (not (python.casefold machine.hostname == python.casefold expected_host)) recovery_error
        "host não autorizado"
    pure machine.hostname

  -- task_query, task_end and task_run.
  unfoldable pub task_command : Verb → String → Effect W ℕ
  task_command verb task = do
    fail_if (not (contains (task_headless ∷ task_interactive ∷ []) task)) recovery_error
        "task_name não allowlisted"
    machine.schtasks verb task

  unfoldable pub restart_task : String → Effect W Restart
  unfolding task_command
  restart_task task = do
    end_code ← task_command end task
    run_code ← task_command run task
    pure (record { end_returncode = end_code; run_returncode = run_code })

  unfoldable pub task_available : String → Effect W Bool
  unfolding task_command
  task_available task = do code ← task_command query task; pure (eqb code 0)

  unfoldable pub read_headless_claim : Effect W Claim
  read_headless_claim w = (read_claim python (8 * second) (machine.now w) (machine.claim_file w), w)

  -- The loop of wait_for_headless_ready: a poll every half second until the deadline.
  unfoldable pub poll_claim : ℕ → ℕ → Claim → Effect W Claim
  unfolding read_headless_claim
  poll_claim zero deadline last w = fail (other_error "out of fuel") "" w
  poll_claim (suc fuel) deadline last w =
      elim (not last.fresh && ltb (machine.monotonic w) deadline) [
        | true ↦
            (do last' ← read_headless_claim; poll_claim fuel deadline last')
              (machine.sleep 500000 w)
        | false ↦ (ok last, w)
      ]

  -- Twelve seconds of half-second polls are 24 rounds.
  abbrev pub poll_fuel : ℕ
  poll_fuel = 26

  unfoldable pub wait_for_headless_ready : Effect W Claim
  unfolding poll_claim
  wait_for_headless_ready = do
    start ← reads machine.monotonic
    first ← read_headless_claim
    poll_claim poll_fuel (start + 12 * second) first

  abbrev pub restarted : Restart → Effect W Headless
  restarted restart =
      if eqb restart.run_returncode 0
      then (do
        claim ← wait_for_headless_ready
        pure (record {
          attempts = headless_restart restart (some claim) ∷ [];
          ready = claim.fresh;
          claim = claim;
        }))
      else pure (record {
        attempts = headless_restart restart none ∷ [];
        ready = false;
        claim = unfresh "not_attempted";
      })

  abbrev pub suppress : Effect W Headless
  suppress = do
    end_code ← task_command end task_headless
    cleared ← (λ w. let (cleared, w') = machine.unlink_claim w in (ok cleared, w'))
    pure (record {
      attempts = headless_suppressed end_code cleared ∷ [];
      ready = false;
      claim = unfresh "transport_guard_required";
    })

  abbrev pub when_available : Bool → Bool → Effect W Headless
  when_available guarded true =
      if guarded then (do r ← restart_task task_headless; restarted r) else suppress
  when_available guarded false =
      pure (record { attempts = []; ready = false; claim = unfresh "not_attempted" })

  unfoldable pub recover_headless : Source → Bool → Effect W Headless
  unfolding restart_task task_available wait_for_headless_ready
  recover_headless source guarded =
      if source.governed
      then (do available ← task_available task_headless; when_available guarded available)
      else when_available guarded false

  abbrev pub start_interactive : Bool → Effect W Interactive
  start_interactive true = do
    restart ← restart_task task_interactive
    pure (record {
      attempts = interactive_restart restart ∷ [];
      started = eqb restart.run_returncode 0;
    })
  start_interactive false = pure (record { attempts = []; started = false })

  unfoldable pub recover_interactive : Source → Effect W Interactive
  unfolding restart_task task_available
  recover_interactive source =
      if source.governed
      then (do available ← task_available task_interactive; start_interactive available)
      else start_interactive false

  abbrev pub is_guarded : Source → Bool
  is_guarded source = elim source.marker [ none ↦ false | some marker ↦ marker == transport_marker ]

  abbrev pub owner_of : Bool → String
  owner_of ready = if ready then "headless" else "interactive"

  abbrev pub payload_of : Source → Source → Headless → Interactive → Payload
  payload_of headless interactive h i = record {
    host = machine.hostname;
    owner = owner_of h.ready;
    mode =
        if h.ready
        then "headless_transport_proven_with_interactive_standby"
        else "interactive_fallback";
    task = if h.ready then task_headless else task_interactive;
    attempts = h.attempts ++ i.attempts;
    headless_source = headless;
    headless_transport_guarded = is_guarded headless;
    headless_claim = h.claim;
    interactive_source = interactive;
    fallback_armed = true;
  }

  abbrev pub conclude : Source → Source → Headless → Interactive → Effect W Payload
  conclude headless interactive h i =
      if i.started
      then pure (payload_of headless interactive h i)
      else fail recovery_error "nenhuma tarefa RDC governada pôde ser iniciada"

  abbrev pub fall_back : Source → Source → Headless → Effect W Payload
  fall_back headless interactive h = do
    i ← recover_interactive interactive
    conclude headless interactive h i

  -- The rest of `recover`, from the two sources as they are.
  unfoldable pub recover_from : Source → Source → Effect W Payload
  unfolding recover_headless recover_interactive
  recover_from headless interactive = do
    h ← recover_headless headless (is_guarded headless)
    fall_back headless interactive h

  abbrev pub headless_at : W → Source
  headless_at w = validate_source machine.occurs headless_markers (machine.headless_source w)

  abbrev pub interactive_at : W → Source
  interactive_at w =
      validate_source machine.occurs interactive_markers (machine.interactive_source w)

  unfoldable pub recover : String → Effect W Payload
  unfolding validate_host recover_from
  recover confirm = do
    fail_if (not (confirm == confirm_text)) recovery_error "confirmação inválida"
    validate_host
    headless ← reads headless_at
    interactive ← reads interactive_at
    recover_from headless interactive
