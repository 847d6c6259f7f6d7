-- ===== src/Broker/Activation/Careful.antt =====
-- That the repair of metadata.json promotes nothing and overwrites nobody.
use desktop_pc24x7_runtime.Prelude.{
  ◌≡◌, refl, sym, ap, subst, ◌∙◌, String, ◌==◌, Bool, true, false, not, if◌then◌else◌, arith,
  eq_iff,
}
use desktop_pc24x7_runtime.Json.{
  Json, Fields, null, bool, num, arr, text, obj, end, field, field_of, get, is_true,
}
use desktop_pc24x7_runtime.Result.{Result, ok, raised, ok-injective, broker_error, succeeded}
use desktop_pc24x7_runtime.Effect.{
  Effect, pure, fail_if, finally, last_of, resume, resume-eq-ok, ◌>>=◌,
}
use desktop_pc24x7_runtime.Broker.Activation.{
  Store, Tools, set_field, update_fields, update, elevated_task_proven, task_ready,
  fallback_persistence_ready, fallback_updates, merge_fields, fields_of, register_and_fall_back,
  register_unless_ready, with_fallback, fall_back, keep_or_fall_back, reconcile_activation, load,
  release, restore_previous_release, restore_locked,
}

pub field_of-set_field :
    (key asked : String) (value : Json) (fields : Fields)
    → field_of asked (set_field key value fields)
      ≡ (if key == asked then value else field_of asked fields)
unfolding field_of set_field
field_of-set_field key asked value end = refl
field_of-set_field key asked value (field k old fields) = ground (
  arith,
  field_of-set_field key asked value fields,
  eq_iff k asked,
  eq_iff key asked,
  eq_iff k key,
)

module _ {V : Type 0} (tools : Tools V) where
  -- The fallback's metadata never says that the administrative channel is ready.
  update-channel :
      (metadata fallback : Json)
      → is_true
          (get "admin_channel_ready" (update (fallback_updates tools metadata fallback) metadata))
        ≡ false
  unfolding update update_fields get
  update-channel (obj fields) fallback =
      let merged =
        obj (
          merge_fields (fields_of fallback)
            (fields_of (get "fallback_persistence" (obj fields)))) in
      let f2 =
        set_field "requires_uac_activation" (bool true)
          (set_field "activation_pending" (bool true) fields) in
      let f3 = set_field "admin_channel_ready" (bool false) f2 in
      let f4 = set_field "fallback_persistence" merged f3 in
      let f5 = set_field "fallback_start_requested" (bool true) f4 in
      ap is_true (
        field_of-set_field "functional_success_proven" "admin_channel_ready" (bool false) f5
        ∙ field_of-set_field "fallback_start_requested" "admin_channel_ready" (bool true) f4
        ∙ field_of-set_field "fallback_persistence" "admin_channel_ready" merged f3
        ∙ field_of-set_field "admin_channel_ready" "admin_channel_ready" (bool false) f2)
  update-channel null fallback = refl
  update-channel (bool b) fallback = refl
  update-channel (num n) fallback = refl
  update-channel (text t) fallback = refl
  update-channel (arr xs) fallback = refl

  fall_back-channel :
      (metadata : Json) (w : Store V) {r : Json} {w' : Store V}
      → fall_back tools metadata w ≡ (ok r, w')
      → is_true (get "admin_channel_ready" r) ≡ false
  fall_back-channel metadata w h =
      let (fallback, w1, _, h1) =
        resume-eq-ok (tools.user_autostart_status w) (register_and_fall_back tools metadata) h in
      let (registered, w2, _, h2) =
        resume-eq-ok (register_unless_ready tools fallback w1) (with_fallback tools metadata) h1 in
      go registered w2 (fallback_persistence_ready tools registered) h2
    where
      go :
          {r : Json} {w' : Store V} (registered : Json) (w2 : Store V) (ready : Bool)
          → resume
              (fail_if (not ready) broker_error "user_autostart_readback_mismatch" w2)
              (λ _. pure (update (fallback_updates tools metadata registered) metadata))
            ≡ (ok r, w')
          → is_true (get "admin_channel_ready" r) ≡ false
      go registered w2 true h =
          subst (λ j. is_true (get "admin_channel_ready" j) ≡ false)
            (ok-injective (ap (λ (p : Result Json × Store V). p.0) h))
            (update-channel metadata registered)
      go registered w2 false h =
          let impossible : ⊥ = cc (ap (λ (p : Result Json × Store V). p.0) h) in absurd impossible

  -- What the repair of the metadata returns says that the administrative channel is ready only if it
  -- is the metadata as it was, which already proved it.
  pub reconcile_activation-channel :
      (metadata : Json) (w : Store V) {r : Json} {w' : Store V}
      → reconcile_activation tools metadata w ≡ (ok r, w')
      → is_true (get "admin_channel_ready" r) ≡ true
      → (r ≡ metadata) × (elevated_task_proven tools metadata ≡ true)
  unfolding reconcile_activation
  reconcile_activation-channel metadata w {r} {w'} h ready =
      go (elevated_task_proven tools metadata) refl h
    where
      not_both : {b : Bool} → b ≡ false → b ≡ true → ⊥
      not_both e f = cc

      keep :
          (w1 : Store V) (b : Bool)
          → (if b then pure metadata else fall_back tools metadata) w1 ≡ (ok r, w')
          → r ≡ metadata
      keep w1 true h = sym (ok-injective (ap (λ (p : Result Json × Store V). p.0) h))
      keep w1 false h = absurd (not_both (fall_back-channel metadata w1 h) ready)

      go :
          (b : Bool)
          → elevated_task_proven tools metadata ≡ b
          → (if b
                then (do observed ← tools.task_status; keep_or_fall_back tools metadata observed)
                else fall_back tools metadata)
              w
            ≡ (ok r, w')
          → (r ≡ metadata) × (elevated_task_proven tools metadata ≡ true)
      go false e h = absurd (not_both (fall_back-channel metadata w h) ready)
      go true e h =
          let (observed, w1, _, h1) =
            resume-eq-ok (tools.task_status w) (keep_or_fall_back tools metadata) h in
          (keep w1 (task_ready tools observed) h1, e)

  -- A rollback's end, from the state before it: nothing of another writer is lost, and a rollback
  -- that ends well has put the previous metadata in the place of its own.
  abbrev pub IsExact : Json → Json → Store V → Result (Unit {0}) × Store V → Type 0
  IsExact previous attempted before (result, after) =
      (tools.equal before.metadata attempted ≡ false
        → (after.metadata ≡ before.metadata) × (after.activation ≡ before.activation))
      × (succeeded result ≡ true
          → (after.metadata ≡ previous) × (tools.equal before.metadata attempted ≡ true))

  restore_locked-IsExact :
      (previous attempted : Json) (launcher : String) (w : Store V)
      → IsExact previous attempted w (restore_locked tools previous attempted launcher w)
  unfolding load
  restore_locked-IsExact previous attempted launcher w = (λ c. ground arith, λ s. ground arith)

  -- A rollback's end, by how the lock was taken, and from the state that was found then.
  abbrev pub IsExactLocked :
      Json → Json → Result (Unit {0}) × Store V → Result (Unit {0}) × Store V → Type 0
  IsExactLocked previous attempted (ok _, found) ended = IsExact previous attempted found ended
  IsExactLocked previous attempted (raised _, left) (result, after) =
      (succeeded result ≡ false) × (after ≡ left)

  -- The rollback of a refresh whose broker did not start, on every branch, whatever other processes
  -- write while it waits for the lock. Without the lock it fails and does nothing. Once it holds the
  -- lock: where the metadata found then is not the refresh's own, it and the activation launcher stay
  -- as they are, and the rollback fails; where the rollback ends well, the metadata found then was the
  -- refresh's own and is the previous one again.
  pub restore_previous_release-IsExact :
      (previous attempted : Json) (launcher : String) (w : Store V)
      → IsExactLocked previous attempted
          (tools.acquire_lock w)
          (restore_previous_release tools previous attempted launcher w)
  unfolding restore_previous_release
  restore_previous_release-IsExact previous attempted launcher w = go (tools.acquire_lock w)
    where
      body : Effect (Store V) (Unit {0})
      body = restore_locked tools previous attempted launcher

      released :
          (v : Store V) (p : Result (Unit {0}) × Store V)
          → IsExact previous attempted v p
          → IsExact previous attempted v (last_of p (release tools))
      released v (ok _, after) e = e
      released v (raised _, after) e = e

      go :
          (p : Result (Unit {0}) × Store V)
          → IsExactLocked previous attempted p (resume p (λ _. finally body (release tools)))
      go (ok _, v) = released v (body v) (restore_locked-IsExact previous attempted launcher v)
      go (raised exc, v) = (refl, refl)
