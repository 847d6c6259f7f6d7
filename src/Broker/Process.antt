-- ===== src/Broker/Process.antt =====
-- `process_once`: one pass over the comments of the issue, and what it leaves on the disk.
pub mod Journal
pub mod AtMostOnce
pub mod Sorted
pub mod Complete
pub mod Allowed
use Prim.Native.Char.{Char, code}
use Prim.Native.String.{count}
use desktop_pc24x7_runtime.Prelude.{
  ℕ, suc, Bool, true, false, not, ◌&&◌, ◌||◌, Option, none, some, List, [], ◌∷◌, String, ◌==◌,
  length, leb, eqb, if◌then◌else◌,
}
use desktop_pc24x7_runtime.Json.{Json, num, get, truthy, is_true, is_text}
use desktop_pc24x7_runtime.Result.{
  Result, ok, raised, Exception, ExceptionClass, broker_error, ◌>>=◌,
}
use desktop_pc24x7_runtime.Text.{Python, str_or_empty}
use desktop_pc24x7_runtime.Broker.Comment.{authorize_comment, parse_github_time}

pub data Progress : Type 0 where
  inflight : Progress
  completed : Json → Progress
  failed : String → Progress

-- state["accepted"]
pub record Accepted : Type 0 where
  pub comment_id : ℕ
  pub action : String
  pub progress : Progress

-- The broker's state.json. The texts that only record when something was seen are left out.
pub record State : Type 0 where
  pub last_seen_comment_id : ℕ
  pub last_seen_at : String
  pub accepted : Option Accepted
  pub readback : Option Json

-- What a pass does to the world, in its order.
pub data Event : Type 0 where
  persisted : State → Event
  executed : ℕ → String → Event
  published : Accepted → Event

pub record Summary : Type 0 where
  pub comments_seen : ℕ
  pub commands_accepted : ℕ
  pub last_seen_comment_id : ℕ
  pub restart_requested : Bool

pub record Pass : Type 0 where
  pub journal : List Event
  pub outcome : Result Summary

pub data Verdict : Type 0 where
  known : Verdict
  broken : Exception → Verdict
  ignored : ℕ → Verdict
  command : ℕ → String → Verdict

-- What a pass is given: the installation's not_before, the clock, the answer of GitHub to
-- fetch_comments, and what execute_action and _publish_readback return. A pass calls them at most
-- once for a comment, so functions of the comment's number say all that they can return.
pub record Services : Type 0 where
  pub python : Python
  pub not_before : String
  -- now_utc() when the comment of this number is authorised.
  pub reference : ℕ → ℕ
  pub fetch_comments : ℕ → Result (List Json)
  pub execute_action : String → ℕ → Result Json
  pub publish_readback : Accepted → Json
  -- type(exc).__name__
  pub class_name : ExceptionClass → String

-- int(comment.get("id") or 0); GitHub numbers its comments.
abbrev pub comment_id : Json → ℕ
comment_id comment = elim (get "id" comment) [ num n ↦ n | _ ↦ 0 ]

-- sorted(..., key=...), which is stable.
unfoldable pub insert_by_id : Json → List Json → List Json
insert_by_id c [] = c ∷ []
insert_by_id c (d ∷ ds) =
    if leb (comment_id c) (comment_id d) then c ∷ d ∷ ds else d ∷ insert_by_id c ds

unfoldable pub sort_by_id : List Json → List Json
unfolding insert_by_id
sort_by_id [] = []
sort_by_id (c ∷ cs) = insert_by_id c (sort_by_id cs)

-- all(ch.isalnum() or ch in "_:-" for ch in controlled)
unfoldable pub is_controlled : (Char → Bool) → String → Bool
is_controlled isalnum String.[] = true
is_controlled isalnum (String.◌∷◌ c s) =
    (isalnum c || (eqb (code c) b'_' || (eqb (code c) b':' || eqb (code c) b'-')))
    && is_controlled isalnum s

abbrev is_broker_error : ExceptionClass → Bool
is_broker_error broker_error = true
is_broker_error _ = false

module _ (services : Services) where
  open services use {
    python, not_before, reference, fetch_comments, execute_action, publish_readback, class_name,
  }

  -- The code recorded for a command that raised.
  unfoldable pub error_code : Exception → String
  unfolding is_controlled
  error_code exc =
      let controlled = python.strip exc.message in
      if is_broker_error exc.class
        && (not (controlled == "")
            && (leb (count controlled) 120 && is_controlled python.isalnum controlled))
      then controlled
      else class_name exc.class

  abbrev pub finished : Result Json → Progress
  finished (ok outcome) = completed outcome
  finished (raised exc) = failed (error_code exc)

  -- result of a completed refresh-self whose refresh_state is "updated"
  abbrev pub refresh_result : String → Progress → Option Json
  refresh_result action (completed outcome) =
      let refresh = get "result" outcome in
      if action == "refresh-self" && is_text (get "refresh_state" refresh) "updated"
      then some refresh
      else none
  refresh_result action _ = none

  abbrev prepend : List Event → Pass → Pass
  prepend [] pass = pass
  prepend (e ∷ es) pass = let rest = prepend es pass in record rest { journal = e ∷ rest.journal }

  abbrev pub stop_with : Result Summary → Pass
  stop_with outcome = record { journal = []; outcome = outcome }

  abbrev pub summary : ℕ → ℕ → ℕ → Bool → Result Summary
  summary seen accepted last restart = ok (record {
    comments_seen = seen;
    commands_accepted = accepted;
    last_seen_comment_id = last;
    restart_requested = restart;
  })

  -- The state once the comment is seen, once its command is accepted, run, and published.
  abbrev pub seen_state : State → ℕ → ℕ → State
  seen_state state id created = record state {
    last_seen_comment_id = id;
    last_seen_at = python.isoformat created;
  }

  abbrev pub accept : ℕ → String → Progress → Accepted
  accept id action progress = record { comment_id = id; action = action; progress = progress }

  abbrev pub accepted_state : State → Accepted → State
  accepted_state state a = record state { accepted = some a }

  -- The events of one accepted command.
  abbrev pub command_events : State → ℕ → String → List Event
  command_events state id action =
      let done = accept id action (finished (execute_action action id)) in
      persisted (accepted_state state (accept id action inflight))
      ∷ executed id action
      ∷ persisted (accepted_state state done)
      ∷ published done
      ∷ persisted (record state { accepted = some done; readback = some (publish_readback done) })
      ∷ []

  abbrev pub state_after : State → ℕ → String → State
  state_after state id action =
      let done = accept id action (finished (execute_action action id)) in
      record state { accepted = some done; readback = some (publish_readback done) }

  -- str(comment.get("created_at") or metadata["not_before"])
  abbrev pub created_text : Json → String
  created_text comment =
      if truthy (get "created_at" comment)
      then python.str (get "created_at" comment)
      else not_before

  -- What the loop makes of a comment, when the last one seen is `last`.
  unfoldable pub classify : ℕ → ℕ → Json → Verdict
  classify since last comment = elim (leb (comment_id comment) last) [
    | true ↦ known
    | false ↦ elim (parse_github_time python (created_text comment)) [
      | raised e ↦ broken e
      | ok created ↦
          elim (authorize_comment python comment since (reference (comment_id comment))) [
            | raised e ↦ broken e
            | ok none ↦ ignored created
            | ok (some action) ↦ command created action
          ]
    ]
  ]

  -- After the command: break on a finished self-refresh, or go on.
  abbrev pub after_command : ℕ → ℕ → ℕ → Option Json → Pass → Pass
  after_command total id accepted (some refresh) rest =
      stop_with (summary total accepted id (is_true (get "new_broker_started" refresh)))
  after_command total id accepted none rest = rest

  -- One turn of the loop. `rest` goes on from the last comment seen, the state and the number of
  -- commands accepted.
  unfoldable pub follow : ℕ → ℕ → Verdict → (ℕ → State → ℕ → Pass) → ℕ → State → ℕ → Pass
  follow total id known rest last state accepted = rest last state accepted
  follow total id (broken e) rest last state accepted = stop_with (raised e)
  follow total id (ignored created) rest last state accepted =
      prepend (persisted (seen_state state id created) ∷ [])
        (rest id (seen_state state id created) accepted)
  follow total id (command created action) rest last state accepted =
      let state' = seen_state state id created in
      prepend (command_events state' id action) (
        after_command total id (suc accepted)
          (refresh_result action (finished (execute_action action id)))
          (rest id (state_after state' id action) (suc accepted)))

  -- The loop over the sorted comments; `total` is their number and `since` the not_before instant.
  unfoldable pub process_comments : List Json → ℕ → ℕ → ℕ → State → ℕ → Pass
  unfolding follow
  process_comments [] total since last state accepted =
      stop_with (summary total accepted last false)
  process_comments (comment ∷ rest) total since last state accepted =
      follow total (comment_id comment) (classify since last comment)
        (process_comments rest total since) last state accepted

  -- str(state.get("last_seen_at") or metadata["not_before"])
  abbrev since_text : State → String
  since_text state = if state.last_seen_at == "" then not_before else state.last_seen_at

  -- The instant of not_before, and the comments since the last one seen.
  unfoldable pub fetch : State → Result (ℕ × List Json)
  fetch state = do
    start ← parse_github_time python not_before
    since ← parse_github_time python (since_text state)
    comments ← fetch_comments since
    ok (start, comments)

  unfoldable pub process_once : State → Pass
  unfolding process_comments sort_by_id
  process_once state = elim (fetch state) [
    | raised e ↦ stop_with (raised e)
    | ok (start, comments) ↦
        process_comments (sort_by_id comments) (length comments) start state.last_seen_comment_id
          state 0
  ]
