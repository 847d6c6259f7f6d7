-- ===== src/Broker/Refresh/Current.antt =====
-- What a refresh that says it has updated the broker has done.
use desktop_pc24x7_runtime.Prelude.{◌≡◌, String, ◌==◌, true, false}
use desktop_pc24x7_runtime.Json.{Json, get, is_true}
use desktop_pc24x7_runtime.Result.{Result, ok}
use desktop_pc24x7_runtime.Effect.{Effect, ◌>>=◌, ◌>>◌}
use desktop_pc24x7_runtime.Broker.Activation.{Store}
use desktop_pc24x7_runtime.Broker.Refresh.{Updater, Refreshed, updated, remote_main_sha, stage}

module _ {V : Type 0} (updater : Updater V) where
  open updater use {tools}

  -- The new broker was started and survived, by the last thing that was done.
  pub record IsStarted (before after : Store V) : Type 0 where
    pub start : Json
    pub called : updater.start_user_broker before ≡ (ok start, after)
    pub survived : is_true (get "startup_survived" start) ≡ true

  -- A refresh that says updated: the commit that it read from the main branch is another one, its
  -- release was staged, and then the new broker was started and survived.
  pub record IsUpdated (refreshed : Refreshed) (after : Store V) : Type 0 where
    pub git : String
    pub asked : Store V
    pub answered : Store V
    pub on_main : remote_main_sha updater git asked ≡ (ok refreshed.target_source_sha, answered)
    pub another : (refreshed.target_source_sha == refreshed.previous_source_sha) ≡ false
    pub staged : String × (Json × Json)
    pub before : Store V
    pub put :
        stage updater git refreshed.previous_source_sha refreshed.target_source_sha answered
        ≡ (ok staged, before)
    pub started : IsStarted before after

  abbrev says : String → String → Refreshed
  says current_sha target_sha = record {
    refresh_state = updated;
    previous_source_sha = current_sha;
    target_source_sha = target_sha;
    new_broker_started = true;
  }
