-- ===== src/Broker/Refresh.antt =====
-- `_self_refresh`: the broker's own update to the head of the main branch.
pub mod Current
use desktop_pc24x7_runtime.Prelude.{
  ℕ, Option, none, some, List, [], ◌∷◌, String, ◌==◌, Bool, true, false, not, ◌&&◌, ◌||◌, map, eqb,
  if◌then◌else◌,
}
use desktop_pc24x7_runtime.Json.{Json, text, num, get, is_true}
use desktop_pc24x7_runtime.Result.{Result, ok, raised, broker_error, Exception}
use desktop_pc24x7_runtime.Effect.{
  Effect, pure, fail, fail_if, lift, reads, attempt, finally, ◌>>=◌, ◌>>◌,
}
use desktop_pc24x7_runtime.Broker.Activation.{
  Store, Tools, update, validate_sha, load, reconcile_activation_file, restore_previous_release,
  atomic_json, acquire, release, write_launcher,
}

pub record Completed : Type 0 where
  pub returncode : ℕ
  pub stdout : String

-- What the refresh calls beyond the tools of the metadata.
pub record Updater (V : Type 0) : Type 0 where
  pub tools : Tools V
  pub require_windows_desktop : Effect (Store V) Unit
  pub git_executable : Effect (Store V) String
  pub run : String → List String → Effect (Store V) Completed
  -- [line.split() for line in output.splitlines() if line.strip()]
  pub rows : String → List (List String)
  pub clone : String
  pub copy_release : String → Effect (Store V) Unit
  pub start_user_broker : Effect (Store V) Json
  pub now_iso : String

pub data RefreshState : Type 0 where
  already_current updated : RefreshState

pub record Refreshed : Type 0 where
  pub refresh_state : RefreshState
  pub previous_source_sha : String
  pub target_source_sha : String
  pub new_broker_started : Bool

module _ {V : Type 0} (updater : Updater V) where
  open updater use {tools}

  abbrev strip : String → String
  strip = (tools.python).strip

  abbrev str : Json → String
  str = (tools.python).str

  unfoldable pub run_git : String → List String → Effect (Store V) String
  run_git git args = do
    completed ← updater.run git args
    fail_if (not (eqb completed.returncode 0)) broker_error "self_refresh_git_failed"
    pure (strip completed.stdout)

  abbrev main_row : List (List String) → Effect (Store V) String
  main_row ((sha ∷ ref ∷ []) ∷ []) =
      if ref == "refs/heads/main"
      then lift (validate_sha tools sha)
      else fail broker_error "self_refresh_main_ref_invalid"
  main_row _ = fail broker_error "self_refresh_main_ref_invalid"

  unfoldable pub remote_main_sha : String → Effect (Store V) String
  unfolding run_git validate_sha
  remote_main_sha git = do
    output ← run_git git (
        "ls-remote" ∷ "--exit-code"
        ∷ "https://github.com/ericson-j-santos/desktop-pc24x7-runtime.git" ∷ "refs/heads/main" ∷ [])
    main_row (updater.rows output)

  abbrev check_clone : String → String → Effect (Store V) Unit
  check_clone git target_sha = do
    run_git git (
        "clone" ∷ "--filter=blob:none" ∷ "--no-tags" ∷ "--depth" ∷ "1" ∷ "--branch" ∷ "main"
        ∷ "https://github.com/ericson-j-santos/desktop-pc24x7-runtime.git" ∷ updater.clone ∷ [])
    head ← run_git git ("-C" ∷ updater.clone ∷ "rev-parse" ∷ "HEAD" ∷ [])
    observed_sha ← lift (validate_sha tools head)
    fail_if (not (observed_sha == target_sha)) broker_error "self_refresh_sha_mismatch"
    dirty ← run_git git ("-C" ∷ updater.clone ∷ "status" ∷ "--porcelain" ∷ [])
    fail_if (not (dirty == "")) broker_error "self_refresh_source_dirty"

  unfoldable pub load_refresh_metadata : String → Effect (Store V) Json
  unfolding load validate_sha
  load_refresh_metadata current_sha = do
    latest ← load tools
    observed ← lift (validate_sha tools (str (get "source_sha" latest)))
    fail_if (not (observed == current_sha)) broker_error "self_refresh_metadata_changed"
    pure latest

  abbrev pub refreshed_metadata : String → String → String → Json → Json
  refreshed_metadata current_sha target_sha launcher latest =
      update
        (("previous_source_sha", text current_sha)
          ∷ ("source_sha", text target_sha)
          ∷ ("release_root", text (tools.release_of target_sha))
          ∷ ("activation_launcher", text launcher)
          ∷ ("poll_seconds", num 300)
          ∷ ("refreshed_at", text updater.now_iso)
          ∷ ("refresh_source", text "canonical_main")
          ∷ [])
        latest

  -- The metadata before and after the switch to the new release.
  abbrev switch_metadata : String → String → String → Effect (Store V) (Json × Json)
  switch_metadata current_sha target_sha launcher = do
    acquire tools
    finally
        (do
          latest ← load_refresh_metadata current_sha
          atomic_json tools (refreshed_metadata current_sha target_sha launcher latest)
          pure (latest, refreshed_metadata current_sha target_sha launcher latest))
        (release tools)

  -- The body of the temporary directory: the launcher, and the metadata before and after.
  abbrev pub stage : String → String → String → Effect (Store V) (String × (Json × Json))
  stage git current_sha target_sha = do
    check_clone git target_sha
    updater.copy_release (tools.release_of target_sha)
    there ← reads (λ store. tools.broker_is_file (tools.release_of target_sha) store.rest)
    fail_if (not there) broker_error "self_refresh_release_incomplete"
    launcher ← write_launcher tools (tools.release_of target_sha)
    reconcile_activation_file tools 3 (some current_sha)
    switched ← switch_metadata current_sha target_sha launcher
    pure (launcher, switched)

  abbrev pub start_new : Effect (Store V) Unit
  start_new = do
    start ← updater.start_user_broker
    fail_if (not (is_true (get "startup_survived" start))) broker_error
        "user_broker_start_not_confirmed"

  abbrev pub roll_back : String × (Json × Json) → Exception → Effect (Store V) Unit
  roll_back (launcher, (latest, attempted)) exc = do
    restore_previous_release tools latest attempted launcher
    lift (raised exc)

  abbrev pub start_or_roll_back :
      String → String → String × (Json × Json) → Effect (Store V) Refreshed
  start_or_roll_back current_sha target_sha staged = do
    attempt start_new (roll_back staged)
    pure (record {
      refresh_state = updated;
      previous_source_sha = current_sha;
      target_source_sha = target_sha;
      new_broker_started = true;
    })

  abbrev pub refresh_to : String → String → String → Effect (Store V) Refreshed
  refresh_to git current_sha target_sha =
      if target_sha == current_sha
      then (do
        reconcile_activation_file tools 3 (some current_sha)
        pure (record {
          refresh_state = already_current;
          previous_source_sha = current_sha;
          target_source_sha = target_sha;
          new_broker_started = false;
        }))
      else (do
        staged ← stage git current_sha target_sha
        start_or_roll_back current_sha target_sha staged)

  unfoldable pub self_refresh : Json → Effect (Store V) Refreshed
  unfolding remote_main_sha load_refresh_metadata reconcile_activation_file restore_previous_release
      update validate_sha
  self_refresh metadata = do
    updater.require_windows_desktop
    current_sha ← lift (validate_sha tools (str (get "source_sha" metadata)))
    git ← updater.git_executable
    target_sha ← remote_main_sha git
    refresh_to git current_sha target_sha
