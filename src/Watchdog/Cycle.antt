-- ===== src/Watchdog/Cycle.antt =====
-- `cycle`: the runner, the second runner and the remote desktop, each recovered by itself.
pub mod Verdict
pub mod Served
use Prim.Native.Char.{code}
use Prim.Native.String.{◌++◌}
use desktop_pc24x7_runtime.Prelude.{
  ℕ, ◌*◌, Option, none, some, List, [], ◌∷◌, String, ◌==◌, Bool, true, false, not, ◌&&◌, ◌||◌,
  contains, all, eqb, if◌then◌else◌,
}
use desktop_pc24x7_runtime.Json.{
  Json, null, bool, num, text, arr, nil, cons, get, has_key, is_dict, is_true, is_text, truthy,
}
use desktop_pc24x7_runtime.Result.{Result, ok, raised, watchdog_error, other_error, Exception}
use desktop_pc24x7_runtime.Effect.{Effect, pure, fail, fail_if, lift, reads, attempt, ◌>>=◌, ◌>>◌}
use desktop_pc24x7_runtime.Text.{second}
use desktop_pc24x7_runtime.HostPolicy.{HostProfile, orchestrator_dev_runner_profile_dict}
use desktop_pc24x7_runtime.Rdc.Claim.{Claim, read_claim}
use desktop_pc24x7_runtime.Watchdog.Host.{Host}
use desktop_pc24x7_runtime.Watchdog.Runner.{Started, validate_runner_home, start_runner}
use desktop_pc24x7_runtime.Watchdog.Site.{
  Site, Metadata, Evidence, absent, invalid, broken, found, Run, authorized_desktop_profile,
  require_windows_desktop,
}

-- The dict of a component.
pub data Component : Type 0 where
  listening : Started → Component
  healthy : Claim → Component
  -- mode, owner and fallback_armed.
  recovered : Json → Json → Bool → Component
  not_applicable : String → Component
  -- component and error_code.
  failed : String → String → Component

abbrev pub status : Component → String
status (listening started) = started.status
status (healthy _) = "healthy"
status (recovered _ _ _) = "recovered"
status (not_applicable _) = "not_applicable"
status (failed _ _) = "failed"

-- What a cycle writes to state.json and returns, but for the time and the fields that never change.
pub record CycleState : Type 0 where
  pub host : String
  pub source_sha : String
  pub rdc : Component
  pub github_runner : Component
  pub runner_recovery_ok : Bool
  pub primary_runner_recovery_ok : Bool
  pub additional_runners : List Component
  pub additional_runner_recovery_ok : Bool
  pub rdc_recovery_enabled : Bool
  pub rdc_recovery_ok : Bool
  pub rdc_required : Bool
  pub is_ok : Bool
  pub partial : Bool
  pub github_pickup_required : Bool

-- message.split(":", 1)[0]
unfoldable pub before_colon : String → String
before_colon String.[] = ""
before_colon (String.◌∷◌ c s) =
    let rest = before_colon s in if eqb (code c) b':' then "" else String.◌∷◌ c rest

abbrev pub known_runner_codes : List String
known_runner_codes =
    "runner_version_invalid" ∷ "runner_version_unreadable" ∷ "runner_version_unsupported" ∷ []

-- What the first statements of a cycle find out.
pub record Plan : Type 0 where
  pub host : String
  pub runner_home : String
  pub additional_home : Option String
  pub rdc_enabled : Bool

module _ {W : Type 0} (site : Site W) where
  unfoldable pub component_failure : String → Exception → Component
  unfolding before_colon
  component_failure component exc =
      let prefix = before_colon exc.message in
      failed component
        (if contains known_runner_codes prefix then prefix else site.class_name exc.class)

  abbrev pub read_evidence : Evidence → Effect W Json
  read_evidence absent = pure null
  read_evidence invalid = pure null
  read_evidence (broken exc) = lift (raised exc)
  read_evidence (found value) =
      if is_dict value then pure value else fail (other_error "AttributeError") "get"

  -- Without evidence, the dict is empty; null has no key either.
  abbrev pub judge_recovery : Run → Json → Effect W Component
  judge_recovery completed evidence =
      if not (eqb completed.returncode 0) || not (is_true (get "ok" evidence))
      then fail watchdog_error (
          "recuperação RDC falhou: "
          ++ site.tail (
              if truthy (get "error" evidence)
              then ((site.host).python).str (get "error" evidence)
              else if completed.stderr == ""
              then completed.stdout
              else completed.stderr))
      else pure (
          recovered (get "mode" evidence) (get "owner" evidence)
            (truthy (get "fallback_armed" evidence)))

  abbrev pub recover_unless_fresh : String → Claim → Effect W Component
  recover_unless_fresh recovery_script claim = if claim.fresh then pure (healthy claim) else (do
    completed ← site.run_recovery recovery_script
    file ← reads site.evidence_file
    value ← read_evidence file
    judge_recovery completed value)

  unfoldable pub recover_rdc : String → Effect W Component
  recover_rdc recovery_script = do
    claim ← (λ w. (read_claim (site.host).python (20 * second) (site.now w) (site.claim_file w), w))
    recover_unless_fresh recovery_script claim

  -- [data[key] for key in keys if key in data], each element against a test.
  abbrev fields_of : Json → List String → List Json
  fields_of registration [] = []
  fields_of registration (key ∷ keys) =
      if has_key key registration
      then get key registration ∷ fields_of registration keys
      else fields_of registration keys

  abbrev is_nonempty : List Json → Bool
  is_nonempty [] = false
  is_nonempty (_ ∷ _) = true

  abbrev is_repository : Json → Bool
  is_repository (text url) =
      site.rstrip_slash url
      == ("https://github.com/" ++ orchestrator_dev_runner_profile_dict.repository)
  is_repository _ = false

  abbrev is_runner_id : Json → Bool
  is_runner_id (num n) = eqb n 21
  is_runner_id _ = false

  -- The registration of the second runner is the one that is expected.
  unfoldable pub is_bound : Json → Bool
  is_bound registration =
      let urls = fields_of registration ("repoUrl" ∷ "gitHubUrl" ∷ []) in
      let names = fields_of registration ("agentName" ∷ "runnerName" ∷ []) in
      is_runner_id (get "agentId" registration)
      && (is_nonempty urls
          && (all is_repository urls
              && (is_nonempty names
                  && all (λ name. is_text name orchestrator_dev_runner_profile_dict.runner_name)
                      names)))

  abbrev admit_home : Option String → Effect W String
  admit_home none = fail watchdog_error "additional_runner_path_rejected"
  admit_home (some local) = do
    fail_if (not (site.is_absolute local)) watchdog_error "additional_runner_path_rejected"
    home ← pure ((site.host).join local "EngineeringOrchestratorDEV/GitHubRunner")
    site.inventory_directory home
    registration ← site.inventory_json ((site.host).join home ".runner")
    fail_if (not (is_bound registration)) watchdog_error "additional_runner_binding_rejected"
    validate_runner_home site.host home

  abbrev pub is_dev_only : Json → Bool
  is_dev_only (arr (cons profile nil)) = is_text profile "orchestrator-dev"
  is_dev_only _ = false

  abbrev pub is_none_asked : Json → Bool
  is_none_asked (arr nil) = true
  is_none_asked _ = false

  unfoldable pub additional_orchestrator_runner_home : Json → Effect W (Option String)
  unfolding is_bound
  additional_orchestrator_runner_home profiles = if is_none_asked profiles then pure none else (do
    fail_if (not (is_dev_only profiles)) watchdog_error "additional_runner_profile_rejected"
    fail_if
        (not (
          ((site.host).python).casefold site.hostname
          == ((site.host).python).casefold orchestrator_dev_runner_profile_dict.host))
        watchdog_error "additional_runner_host_rejected"
    local ← reads ((site.host).getenv "LOCALAPPDATA")
    home ← admit_home local
    pure (some home))

  abbrev pub rdc_policy : Option Json → Effect W Bool
  rdc_policy none = pure true
  rdc_policy (some (bool enabled)) = pure enabled
  rdc_policy (some _) = fail watchdog_error "rdc_recovery_policy_invalid"

  abbrev pub prepare_additional : Metadata → String → String → Option String → Effect W Plan
  prepare_additional metadata host runner_home additional_home = do
    rdc_enabled ← rdc_policy metadata.rdc_recovery_enabled
    pure (record {
      host = host;
      runner_home = runner_home;
      additional_home = additional_home;
      rdc_enabled = rdc_enabled;
    })

  abbrev pub prepare_home : Metadata → String → String → Effect W Plan
  prepare_home metadata host runner_home = do
    additional_home ← additional_orchestrator_runner_home metadata.additional_runner_profiles
    prepare_additional metadata host runner_home additional_home

  abbrev pub prepare_on : Metadata → String → Effect W Plan
  prepare_on metadata host = do
    runner_home ← validate_runner_home site.host metadata.runner_home
    prepare_home metadata host runner_home

  -- The statements before the first recovery.
  unfoldable pub prepare : Metadata → Effect W Plan
  unfolding require_windows_desktop additional_orchestrator_runner_home
  prepare metadata = do host ← require_windows_desktop site; prepare_on metadata host

  -- try: ... except Exception as exc: _component_failure(...)
  abbrev pub guarded : String → Effect W Component → Effect W Component
  guarded component body = attempt body (λ exc. pure (component_failure component exc))

  abbrev pub start : String → String → Effect W Component
  start home log_path = do started ← start_runner site.host home log_path; pure (listening started)

  abbrev pub start_additional : Metadata → Option String → Effect W (List Component)
  start_additional metadata none = pure []
  start_additional metadata (some home) = do
    observed ←
        guarded "orchestrator_dev_runner"
          (start home ((site.host).join metadata.runtime_root "logs/orchestrator-dev-runner.log"))
    pure (observed ∷ [])

  abbrev pub is_running : Component → Bool
  is_running component = contains ("recovered" ∷ "process_running" ∷ []) (status component)

  abbrev pub is_served : Component → Bool
  is_served component = contains ("healthy" ∷ "recovered" ∷ []) (status component)

  abbrev pub recovery_script : Metadata → String
  recovery_script metadata = (site.host).join metadata.release_root "scripts/pc24x7_rdc_recovery.py"

  abbrev pub recover_desktop : Metadata → Plan → Bool → Effect W Component
  recover_desktop metadata plan false w = (
    ok (
        not_applicable
          (if plan.rdc_enabled then "legacy_rdc_primary_only" else "disabled_by_owner")),
    w,
  )
  recover_desktop metadata plan true w =
      if (site.host).is_file (recovery_script metadata) w
      then guarded "rdc" (recover_rdc (recovery_script metadata)) w
      else (ok (failed "rdc" "rdc_recovery_script_missing"), w)

  abbrev pub is_primary : Bool → HostProfile → Bool
  is_primary rdc_enabled profile = rdc_enabled && profile.role == "desktop-primary"

  abbrev pub requires_rdc : Plan → Effect W Bool
  requires_rdc plan =
      if plan.rdc_enabled
      then (do
        profile ← authorized_desktop_profile site plan.host
        pure (is_primary plan.rdc_enabled profile))
      else pure false

  unfoldable pub summary :
      Metadata → Plan → Component → List Component → Bool → Component → CycleState
  summary metadata plan runner additional rdc_required rdc =
      let primary_ok = is_running runner in
      let additional_ok = all is_running additional in
      let runner_ok = primary_ok && additional_ok in
      let rdc_ok = not rdc_required || is_served rdc in
      record {
        host = plan.host;
        source_sha = metadata.source_sha;
        rdc = rdc;
        github_runner = runner;
        runner_recovery_ok = runner_ok;
        primary_runner_recovery_ok = primary_ok;
        additional_runners = additional;
        additional_runner_recovery_ok = additional_ok;
        rdc_recovery_enabled = plan.rdc_enabled;
        rdc_recovery_ok = rdc_ok;
        rdc_required = rdc_required;
        is_ok = runner_ok && rdc_ok;
        partial = if runner_ok then not rdc_ok else rdc_ok;
        github_pickup_required = runner_ok;
      }

  abbrev pub conclude :
      (CycleState → Effect W Unit)
      → Metadata
      → Plan
      → Component
      → List Component
      → Bool
      → Component
      → Effect W CycleState
  conclude write metadata plan runner additional rdc_required rdc = do
    write (summary metadata plan runner additional rdc_required rdc)
    pure (summary metadata plan runner additional rdc_required rdc)

  abbrev pub serve_desktop :
      (CycleState → Effect W Unit)
      → Metadata
      → Plan
      → Component
      → List Component
      → Bool
      → Effect W CycleState
  serve_desktop write metadata plan runner additional rdc_required = do
    rdc ← recover_desktop metadata plan rdc_required
    conclude write metadata plan runner additional rdc_required rdc

  abbrev pub after_runners :
      (CycleState → Effect W Unit)
      → Metadata
      → Plan
      → Component
      → List Component
      → Effect W CycleState
  after_runners write metadata plan runner additional = do
    rdc_required ← requires_rdc plan
    serve_desktop write metadata plan runner additional rdc_required

  abbrev pub after_runner :
      (CycleState → Effect W Unit) → Metadata → Plan → Component → Effect W CycleState
  after_runner write metadata plan runner = do
    additional ← start_additional metadata plan.additional_home
    after_runners write metadata plan runner additional

  abbrev pub recover_runner : Metadata → Plan → Effect W Component
  recover_runner metadata plan =
      guarded "github_runner"
        (start plan.runner_home ((site.host).join metadata.runtime_root "logs/github-runner.log"))

  -- The recoveries; the last statement, atomic_json of state.json, is `write`.
  unfoldable pub recover_all : (CycleState → Effect W Unit) → Metadata → Plan → Effect W CycleState
  unfolding component_failure recover_rdc summary
  recover_all write metadata plan = do
    runner ← recover_runner metadata plan
    after_runner write metadata plan runner

  unfoldable pub cycle : (CycleState → Effect W Unit) → Metadata → Effect W CycleState
  unfolding prepare recover_all
  cycle write metadata = do plan ← prepare metadata; recover_all write metadata plan
