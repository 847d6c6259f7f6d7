-- ===== src/Broker/Activation.antt =====
-- The broker's metadata.json and its repair: task_ready to _restore_previous_release_after_failed_start.
pub mod Careful
use Prim.Native.Char.{code}
use Prim.Native.String.{count}
use desktop_pc24x7_runtime.Prelude.{
  leb, ℕ, zero, suc, Option, none, some, List, [], ◌∷◌, String, ◌==◌, Bool, true, false, not, ◌&&◌,
  ◌||◌, eqb, if◌then◌else◌,
}
use desktop_pc24x7_runtime.Json.{
  Json, Fields, null, bool, text, obj, end, field, get, is_dict, is_true, is_text, truthy,
}
use desktop_pc24x7_runtime.Result.{Result, ok, raised, raise, broker_error, Exception}
use desktop_pc24x7_runtime.Effect.{
  Effect, pure, fail, fail_if, lift, reads, attempt, finally, ◌>>=◌, ◌>>◌,
}
use desktop_pc24x7_runtime.Text.{Python, str_or_empty}

-- The state: what metadata.json holds, the release that the activation launcher names, and the rest.
pub record Store (V : Type 0) : Type 0 where
  pub metadata : Json
  pub activation : String
  pub rest : V

-- What the functions of this part call. An effect on the store may be another process's, too.
pub record Tools (V : Type 0) : Type 0 where
  pub python : Python
  -- Python's == of two dicts.
  pub equal : Json → Json → Bool
  -- str.lower
  pub lower : String → String
  -- load_installed_metadata: what it refuses.
  pub load_check : Store V → Result (Unit {0})
  -- _acquire_metadata_lock, which may wait while others write, and _release_broker_lock.
  pub acquire_lock : Effect (Store V) (Unit {0})
  pub release_lock : V → V
  pub task_status : Effect (Store V) Json
  pub user_autostart_status : Effect (Store V) Json
  pub register_user_autostart : Effect (Store V) Json
  -- (runtime_root / "releases" / sha).resolve(), and Path(text).resolve().
  pub release_of : String → String
  pub resolve : String → String
  pub broker_is_file : String → V → Bool
  -- The path of the launcher that _write_uac_activation_launcher writes.
  pub launcher_path : String

-- dict.update of one key.
unfoldable pub set_field : String → Json → Fields → Fields
set_field key value end = field key value end
set_field key value (field k old fields) =
    if k == key then field k value fields else field k old (set_field key value fields)

unfoldable pub update_fields : List (String × Json) → Fields → Fields
unfolding set_field
update_fields [] fields = fields
update_fields ((key, value) ∷ updates) fields = update_fields updates (set_field key value fields)

unfoldable pub update : List (String × Json) → Json → Json
unfolding update_fields
update updates (obj fields) = obj (update_fields updates fields)
update updates value = value

abbrev pub fields_of : Json → Fields
fields_of (obj fields) = fields
fields_of _ = end

-- a.update(b) for two dicts, in the order of b.
unfoldable pub merge_fields : Fields → Fields → Fields
unfolding set_field
merge_fields end fields = fields
merge_fields (field key value more) fields = merge_fields more (set_field key value fields)

-- Whether every character is one of 0123456789abcdef.
unfoldable pub is_hex : String → Bool
is_hex String.[] = true
is_hex (String.◌∷◌ c s) =
    let rest = is_hex s in
    ((leb b'0' (code c) && leb (code c) b'9') || (leb b'a' (code c) && leb (code c) b'f')) && rest

module _ {V : Type 0} (tools : Tools V) where
  open tools use {python}

  unfoldable pub validate_sha : String → Result String
  unfolding is_hex
  validate_sha value =
      let sha = tools.lower (python.strip value) in
      if eqb (count sha) 40 && is_hex sha then ok sha else raise broker_error "source_sha inválido"

  unfoldable pub task_ready : Json → Bool
  task_ready task =
      is_true (get "exists" task)
      && (is_true (get "trigger_at_startup" task)
          && (python.casefold (str_or_empty python (get "logon_type" task)) == "s4u"
              && (python.casefold (str_or_empty python (get "run_level" task)) == "highest"
                  && is_true (get "enabled" task))))

  unfoldable pub elevated_task_proven : Json → Bool
  unfolding task_ready
  elevated_task_proven metadata =
      is_true (get "admin_channel_ready" metadata)
      && (is_dict (get "admin_task" metadata) && task_ready (get "admin_task" metadata))

  unfoldable pub fallback_persistence_ready : Json → Bool
  fallback_persistence_ready status =
      is_text (get "mode" status) "HKCU_RUN_AT_LOGON" && is_true (get "readback_verified" status)

  abbrev pub fallback_updates : Json → Json → List (String × Json)
  fallback_updates metadata fallback =
      ("activation_pending", bool true)
      ∷ ("requires_uac_activation", bool true)
      ∷ ("admin_channel_ready", bool false)
      ∷ (
        "fallback_persistence",
        obj (merge_fields (fields_of fallback) (fields_of (get "fallback_persistence" metadata))),
      )
      ∷ ("fallback_start_requested", bool true)
      ∷ ("functional_success_proven", bool false)
      ∷ []

  abbrev pub with_fallback : Json → Json → Effect (Store V) Json
  with_fallback metadata fallback = do
    fail_if (not (fallback_persistence_ready fallback)) broker_error
        "user_autostart_readback_mismatch"
    pure (update (fallback_updates metadata fallback) metadata)

  abbrev pub register_unless_ready : Json → Effect (Store V) Json
  register_unless_ready fallback =
      if fallback_persistence_ready fallback then pure fallback else tools.register_user_autostart

  abbrev pub register_and_fall_back : Json → Json → Effect (Store V) Json
  register_and_fall_back metadata fallback = do
    registered ← register_unless_ready fallback
    with_fallback metadata registered

  abbrev pub fall_back : Json → Effect (Store V) Json
  fall_back metadata = do
    fallback ← tools.user_autostart_status
    register_and_fall_back metadata fallback

  abbrev pub keep_or_fall_back : Json → Json → Effect (Store V) Json
  keep_or_fall_back metadata observed =
      if task_ready observed then pure metadata else fall_back metadata

  unfoldable pub reconcile_activation : Json → Effect (Store V) Json
  unfolding elevated_task_proven fallback_persistence_ready update merge_fields
  reconcile_activation metadata =
      if elevated_task_proven metadata
      then (do observed ← tools.task_status; keep_or_fall_back metadata observed)
      else fall_back metadata

  unfoldable pub load : Effect (Store V) Json
  load store = elim (tools.load_check store) [
    | ok _ ↦ (ok store.metadata, store)
    | raised exc ↦ (raised exc, store)
  ]

  abbrev pub atomic_json : Json → Effect (Store V) Unit
  atomic_json metadata store = (ok tt, record store { metadata = metadata })

  abbrev pub acquire : Effect (Store V) Unit
  acquire = tools.acquire_lock

  abbrev pub release : Effect (Store V) Unit
  release store = (ok tt, record store { rest = tools.release_lock store.rest })

  abbrev pub expect_sha : Option String → Json → Effect (Store V) Unit
  expect_sha none base = pure tt
  expect_sha (some expected) base = do
    observed ← lift (validate_sha (python.str (get "source_sha" base)))
    fail_if (not (observed == expected)) broker_error "self_refresh_metadata_changed"

  -- Under the lock: none where another process has written in the meantime.
  abbrev pub compare_and_write : Json → Json → Json → Effect (Store V) (Option Json)
  compare_and_write base reconciled latest =
      if not (tools.equal latest base) then pure none else (do
        if tools.equal reconciled latest then pure tt else atomic_json reconciled
        pure (some reconciled))

  abbrev pub swap_locked : Json → Json → Effect (Store V) (Option Json)
  swap_locked base reconciled = do
    acquire
    finally (do latest ← load; compare_and_write base reconciled latest) release

  -- The three attempts.
  unfoldable pub reconcile_activation_file : ℕ → Option String → Effect (Store V) Json
  unfolding reconcile_activation load validate_sha
  reconcile_activation_file zero expected = fail broker_error "metadata_reconcile_contention"
  reconcile_activation_file (suc attempts) expected = do
    base ← load
    expect_sha expected base
    reconciled ← reconcile_activation base
    swapped ← swap_locked base reconciled
    elim swapped [
      | none ↦ reconcile_activation_file attempts expected
      | some written ↦ pure written
    ]

  abbrev pub write_launcher : String → Effect (Store V) String
  write_launcher release_root store =
      (ok tools.launcher_path, record store { activation = release_root })

  abbrev pub read_back : Json → Effect (Store V) Unit
  read_back previous = do
    observed ← load
    fail_if (not (tools.equal observed previous)) broker_error
        "self_refresh_rollback_readback_failed"

  abbrev pub put_previous : Json → String → String → Effect (Store V) Unit
  put_previous previous activation_launcher previous_sha = do
    there ← reads (λ store. tools.broker_is_file (tools.release_of previous_sha) store.rest)
    fail_if
        (not (
            tools.resolve (python.str (get "release_root" previous))
            == tools.release_of previous_sha)
          || not there)
        broker_error "self_refresh_previous_release_unavailable"
    restored ← write_launcher (tools.release_of previous_sha)
    fail_if (not (tools.resolve restored == tools.resolve activation_launcher)) broker_error
        "self_refresh_rollback_launcher_mismatch"
    atomic_json previous
    read_back previous

  abbrev pub restore_locked : Json → Json → String → Effect (Store V) Unit
  restore_locked previous attempted activation_launcher = do
    observed ← load
    fail_if (not (tools.equal observed attempted)) broker_error "self_refresh_rollback_conflict"
    previous_sha ← lift (validate_sha (python.str (get "source_sha" previous)))
    put_previous previous activation_launcher previous_sha

  unfoldable pub restore_previous_release : Json → Json → String → Effect (Store V) Unit
  unfolding load validate_sha
  restore_previous_release previous attempted activation_launcher = do
    acquire
    finally (restore_locked previous attempted activation_launcher) release
