-- ===== src/Broker/Installation/Register/Proven.antt =====
-- A registration that ended well leaves a proof of the elevated task in metadata.json.
use desktop_pc24x7_runtime.Prelude.{
  ◌≡◌, refl, ap, sym, ◌∙◌, subst, Bool, true, false, not, none, String, inl, inr, arith,
}
use desktop_pc24x7_runtime.Json.{Json, Fields, null, bool, num, text, arr, obj, get, text, is_dict}
use desktop_pc24x7_runtime.Result.{Result, ok, raised, ok-injective, Result-cases, broker_error}
use desktop_pc24x7_runtime.Effect.{resume, resume-eq-ok, fail_if, finally, last_of, pure}
use desktop_pc24x7_runtime.Text.{str_or_empty}
use desktop_pc24x7_runtime.Broker.Comment.{get_or_raise}
use desktop_pc24x7_runtime.Broker.Activation.{
  Tools, validate_sha, task_ready, elevated_task_proven, update, update_fields, set_field,
}
use desktop_pc24x7_runtime.Broker.Activation.Careful.{field_of-set_field}
use desktop_pc24x7_runtime.Broker.Installation.{
  MetadataFile, missing, invalid, holds, Desk, Site, opens, Installed, load_installed_metadata,
  check_installed,
}
use desktop_pc24x7_runtime.Broker.Installation.Autostart.{remove_user_autostart}
use desktop_pc24x7_runtime.Broker.Installation.Register.{
  activated, write_activated, locked, release, remove_fallback, write_under_lock, lock_and_write,
  persist_task_activation,
}

module _ (observed started : Json) (now : String) (fields : Fields) where
  abbrev channel : Fields
  channel = set_field "admin_channel_ready" (bool true) (
      set_field "requires_uac_activation" (bool false)
        (set_field "activation_pending" (bool false) fields))

  abbrev tasked : Fields
  tasked = set_field "admin_task" observed channel

  abbrev begun : Fields
  begun = set_field "admin_task_start" started tasked

  activated-channel :
      get "admin_channel_ready" (update (activated observed started now) (obj fields)) ≡ bool true
  unfolding update update_fields get
  activated-channel =
      field_of-set_field "uac_activated_at" "admin_channel_ready" (text now) begun
      ∙ field_of-set_field "admin_task_start" "admin_channel_ready" started tasked
      ∙ field_of-set_field "admin_task" "admin_channel_ready" observed channel
      ∙ field_of-set_field "admin_channel_ready" "admin_channel_ready" (bool true) (
          set_field "requires_uac_activation" (bool false)
            (set_field "activation_pending" (bool false) fields))

  activated-task :
      get "admin_task" (update (activated observed started now) (obj fields)) ≡ observed
  unfolding update update_fields get
  activated-task =
      field_of-set_field "uac_activated_at" "admin_task" (text now) begun
      ∙ field_of-set_field "admin_task_start" "admin_task" started tasked
      ∙ field_of-set_field "admin_task" "admin_task" observed channel

module _ {V : Type 0} (tools : Tools V) (site : Site V) (now_iso : V → String) where
  task_ready-is_dict :
      (observed : Json) → task_ready tools observed ≡ true → is_dict observed ≡ true
  unfolding task_ready get
  task_ready-is_dict (obj fields) h = refl
  task_ready-is_dict null h = cc
  task_ready-is_dict (bool b) h = cc
  task_ready-is_dict (num n) h = cc
  task_ready-is_dict (text s) h = cc
  task_ready-is_dict (arr xs) h = cc

  activated-proven :
      (observed started latest : Json) (now : String)
      → task_ready tools observed ≡ true
      → is_dict latest ≡ true
      → elevated_task_proven tools (update (activated observed started now) latest) ≡ true
  unfolding elevated_task_proven
  activated-proven observed started (obj fields) now ready d = rw (
    activated-channel observed started now fields,
    activated-task observed started now fields,
    task_ready-is_dict observed ready,
    ready,
  )
  activated-proven observed started null now ready d = cc
  activated-proven observed started (bool b) now ready d = cc
  activated-proven observed started (num n) now ready d = cc
  activated-proven observed started (text s) now ready d = cc
  activated-proven observed started (arr xs) now ready d = cc

  pub check_installed-metadata :
      (path : String) (current : Bool) (disk : V) (metadata : Json) (installed : Installed)
      → check_installed tools site path current disk metadata ≡ ok installed
      → installed.metadata ≡ metadata
  unfolding check_installed
  check_installed-metadata path current disk metadata installed h =
      elim (Result-cases
        (validate_sha tools (str_or_empty tools.python (get "source_sha" metadata)))) [
          | inr (e, v) ↦ ground arith
          | inl (sha, v) ↦ elim (Result-cases site.default_root) [
            | inr (e, r) ↦ ground arith
            | inl (default, r) ↦ ground arith
          ]
        ]

  load_installed_metadata-is_dict :
      (path : String) (current : Bool) (desk : Desk V) (installed : Installed)
      → load_installed_metadata tools site path current desk ≡ ok installed
      → is_dict installed.metadata ≡ true
  unfolding load_installed_metadata get_or_raise
  load_installed_metadata-is_dict path current desk installed h = go desk.metadata refl
    where
      go : (file : MetadataFile) → desk.metadata ≡ file → is_dict installed.metadata ≡ true
      go missing e = ground arith
      go invalid e = ground arith
      go (holds metadata) e =
          ground (
            arith,
            check_installed-metadata (site.resolve path) current desk.rest metadata installed,
          )

  -- What was written under the lock, over what was found there.
  pub record IsPersisted (path : String) (observed started metadata : Json) (after : Desk V)
      : Type 0 where
    pub proven : elevated_task_proven tools metadata ≡ true
    pub written : after.metadata ≡ holds metadata
    pub no_fallback : site.run_key after.rest ≡ opens → after.autostart ≡ none
    pub latest : Installed
    pub moment : Desk V
    pub loaded : load_installed_metadata tools site path false moment ≡ ok latest
    pub updated :
        metadata ≡ update (activated observed started (now_iso moment.rest)) latest.metadata

  remove_user_autostart-after :
      (w after : Desk V) (done : Unit {0})
      → remove_user_autostart tools site w ≡ (ok done, after)
      → (after.metadata ≡ w.metadata) × (site.run_key after.rest ≡ opens → after.autostart ≡ none)
  unfolding remove_user_autostart
  remove_user_autostart-after w after done h = (ground arith, λ o. ground arith)

  released-eq-ok :
      (body : Result Json × Desk V) (metadata : Json) (after : Desk V)
      → last_of body (release tools site now_iso) ≡ (ok metadata, after)
      → (body.0 ≡ ok metadata) × (after.metadata ≡ body.1.metadata)
  released-eq-ok (r, u) metadata after h = (
    ap (λ (p : Result Json × Desk V). p.0) h,
    sym (ap (λ (p : Result Json × Desk V). p.1.metadata) h),
  )

  locked-eq-ok :
      (path : String) (observed started metadata : Json) (w : Desk V)
      → (locked tools site now_iso path observed started w).0 ≡ ok metadata
      → (latest : Installed) × (load_installed_metadata tools site path false w ≡ ok latest)
        × (metadata ≡ update (activated observed started (now_iso w.rest)) latest.metadata)
        × ((locked tools site now_iso path observed started w).1.metadata ≡ holds metadata)
  locked-eq-ok path observed started metadata w h =
      go (load_installed_metadata tools site path false w) refl h
    where
      go :
          (loaded : Result Installed)
          → load_installed_metadata tools site path false w ≡ loaded
          → (resume (loaded, w) (write_activated tools site now_iso observed started)).0
            ≡ ok metadata
          → (latest : Installed) × (load_installed_metadata tools site path false w ≡ ok latest)
            × (metadata ≡ update (activated observed started (now_iso w.rest)) latest.metadata)
            × ((resume (loaded, w) (write_activated tools site now_iso observed started)).1.metadata
                ≡ holds metadata)
      go (ok latest) e h = (latest, e, sym (ok-injective h), ap holds (ok-injective h))
      go (raised exc) e h = cc

  pub fail_if-ready :
      (observed : Json) (w after : Desk V) (done : Unit {0})
      → fail_if (not (task_ready tools observed)) broker_error "task_registration_readback_failed" w
        ≡ (ok done, after)
      → task_ready tools observed ≡ true
  fail_if-ready observed w after done h = ground arith

  pub fail_if-same :
      (observed : Json) (w after : Desk V) (done : Unit {0})
      → fail_if (not (task_ready tools observed)) broker_error "task_registration_readback_failed" w
        ≡ (ok done, after)
      → w ≡ after
  fail_if-same observed w after done h = ground arith

  removed :
      (path : String) (observed started found metadata : Json) (w2 w3 after : Desk V)
      → task_ready tools observed ≡ true
      → finally (locked tools site now_iso path observed started) (release tools site now_iso) w2
        ≡ (ok found, w3)
      → remove_fallback tools site now_iso found w3 ≡ (ok metadata, after)
      → IsPersisted path observed started metadata after
  removed path observed started found metadata w2 w3 after ready e3 h3 =
      let (body, kept) =
        released-eq-ok (locked tools site now_iso path observed started w2) found w3 e3 in
      let (latest, loaded, updated, written) = locked-eq-ok path observed started found w2 body in
      let (done, w4, e4, h4) =
        resume-eq-ok (remove_user_autostart tools site w3) (λ _. pure found) h3 in
      let (same, gone) = remove_user_autostart-after w3 w4 done e4 in
      let is_found = ok-injective (ap (λ (p : Result Json × Desk V). p.0) h4) in
      let is_after = ap (λ (p : Result Json × Desk V). p.1) h4 in
      record {
        proven =
            subst (λ m. elevated_task_proven tools m ≡ true) (sym updated ∙ is_found)
              (activated-proven observed started latest.metadata (now_iso w2.rest) ready
                (load_installed_metadata-is_dict path false w2 latest loaded));
        written = ap Desk.metadata (sym is_after) ∙ same ∙ kept ∙ written ∙ ap holds is_found;
        no_fallback = λ o.
            ap Desk.autostart (sym is_after)
            ∙ gone (ap (λ (d : Desk V). site.run_key d.rest) is_after ∙ o);
        latest = latest;
        moment = w2;
        loaded = loaded;
        updated = sym is_found ∙ updated;
      }

  pub persist_task_activation-IsPersisted :
      (path : String) (observed started metadata : Json) (w after : Desk V)
      → persist_task_activation tools site now_iso path observed started w ≡ (ok metadata, after)
      → IsPersisted path observed started metadata after
  unfolding persist_task_activation
  persist_task_activation-IsPersisted path observed started metadata w after h0 =
      let (done, w1, e1, h1) =
        resume-eq-ok
          (fail_if (not (task_ready tools observed)) broker_error
            "task_registration_readback_failed" w)
          (lock_and_write tools site now_iso path observed started) h0 in
      let (taken, w2, e2, h2) =
        resume-eq-ok (site.acquire_lock w1)
          (write_under_lock tools site now_iso path observed started) h1 in
      let (found, w3, e3, h3) =
        resume-eq-ok
          (finally (locked tools site now_iso path observed started) (release tools site now_iso)
            w2)
          (remove_fallback tools site now_iso) h2 in
      removed path observed started found metadata w2 w3 after (fail_if-ready observed w w1 done e1)
        e3 h3
