-- ===== src/Broker/Process/Complete.antt =====
-- No command is lost: a pass that ends well has run every command, or leaves it to the next pass.

use desktop_pc24x7_runtime.Prelude.{
  ℕ, ◌≤◌, ◌<◌, ◌≡◌, ◌≢◌, ◌⊎◌, inl, inr, refl, suc, ap, ◌∙◌, Option, none, some, List, [], ◌∷◌, ◌++◌,
  String, arith, All, length,
}
use desktop_pc24x7_runtime.Json.{Json}
use desktop_pc24x7_runtime.Result.{ok, ok-injective}
use desktop_pc24x7_runtime.Broker.Comment.{authorize_comment}
use desktop_pc24x7_runtime.Broker.Process.{
  State, Event, persisted, executed, published, Services, Summary, Pass, Verdict, known, broken,
  ignored, command, comment_id, classify, follow, seen_state, state_after, after_command,
  command_events, finished, refresh_result, fetch, sort_by_id, process_comments, process_once,
}
use desktop_pc24x7_runtime.Broker.Process.Journal.{on_disk}
use desktop_pc24x7_runtime.Broker.Process.Sorted.{
  DistinctIds, Ascending, All-sort_by_id, sort_by_id-Ascending,
}

abbrev pub Ran : ℕ → String → List Event → Type 0
Ran id action [] = ⊥
Ran id action (persisted _ ∷ es) = Ran id action es
Ran id action (executed i a ∷ es) = ((i ≡ id) × (a ≡ action)) ⊎ Ran id action es
Ran id action (published _ ∷ es) = Ran id action es

module _ (services : Services) (since : ℕ) where
  -- Where the comment `c` is a command above `last`, it is in the events or above `next`.
  abbrev pub Served : ℕ → ℕ → List Event → Json → Type 0
  Served last next es c =
      (action : String)
      → authorize_comment services.python c since (services.reference (comment_id c))
        ≡ ok (some action)
      → last < comment_id c
      → Ran (comment_id c) action es ⊎ (next < comment_id c)

  -- What a pass owes from `last` on, for the comments `cs`.
  record Owed (cs : List Json) (last : ℕ) (state : State) (pass : Pass) (summary : Summary)
      : Type 0 where
    served : All (Served last summary.last_seen_comment_id pass.journal) cs
    grown : last ≤ summary.last_seen_comment_id
    saved : (on_disk state pass.journal).last_seen_comment_id ≡ summary.last_seen_comment_id

  -- What the verdict on a comment says of its command.
  abbrev Judged : ℕ → Json → Verdict → Type 0
  Judged last c known = comment_id c ≤ last
  Judged last c (broken e) = Unit
  Judged last c (ignored created) =
      (last < comment_id c)
      × ((action : String)
          → authorize_comment services.python c since (services.reference (comment_id c))
            ≢ ok (some action))
  Judged last c (command created action) =
      (last < comment_id c)
      × (authorize_comment services.python c since (services.reference (comment_id c))
          ≡ ok (some action))

  classify-Judged : (last : ℕ) (c : Json) → Judged last c (classify services since last c)
  unfolding classify
  classify-Judged last c = ground arith

  Served-later :
      (last id next : ℕ) (es : List Event) (cs : List Json)
      → All (λ d. id < comment_id d) cs
      → All (Served id next es) cs
      → All (Served last next es) cs
  Served-later last id next es [] above h = tt
  Served-later last id next es (d ∷ ds) (lt, above) (p, h) =
      (λ action auth _. p action auth lt, Served-later last id next es ds above h)

  Served-more :
      (last next : ℕ) (es fs : List Event) (cs : List Json)
      → ((id : ℕ) (action : String) → Ran id action es → Ran id action fs)
      → All (Served last next es) cs
      → All (Served last next fs) cs
  Served-more last next es fs [] more h = tt
  Served-more last next es fs (d ∷ ds) more (p, h) = (
    λ action auth lt. elim (p action auth lt) [ inl r ↦ inl (more _ action r) | inr r ↦ inr r ],
    Served-more last next es fs ds more h,
  )

  Served-next :
      (last next : ℕ) (es : List Event) (cs : List Json)
      → All (λ d. next < comment_id d) cs
      → All (Served last next es) cs
  Served-next last next es [] above = tt
  Served-next last next es (d ∷ ds) (lt, above) =
      (λ action auth _. inr lt, Served-next last next es ds above)

  GoesWell : List Json → (ℕ → State → ℕ → Pass) → Type 0
  GoesWell cs rest =
      (last : ℕ) (state : State) (accepted : ℕ) (summary : Summary)
      → state.last_seen_comment_id ≡ last
      → (rest last state accepted).outcome ≡ ok summary
      → Owed cs last state (rest last state accepted) summary

  after_command-Owed :
      (total id accepted : ℕ) (refresh : Option Json) (cs : List Json) (rest : ℕ → State → ℕ → Pass)
      (state : State) (summary : Summary)
      → All (λ d. id < comment_id d) cs
      → GoesWell cs rest
      → state.last_seen_comment_id ≡ id
      → (after_command services total id accepted refresh (rest id state accepted)).outcome
        ≡ ok summary
      → Owed cs id state
          (after_command services total id accepted refresh (rest id state accepted))
          summary
  unfolding GoesWell
  after_command-Owed total id accepted none cs rest state summary above go e h =
      go id state accepted summary e h
  after_command-Owed total id accepted (some refresh) cs rest state summary above go e h =
      let last : id ≡ summary.last_seen_comment_id =
        ap (λ (s : Summary). s.last_seen_comment_id) (ok-injective h) in
      record {
        served = Served-next id summary.last_seen_comment_id [] cs (rw (← last) above);
        grown = omega arith;
        saved = e ∙ last;
      }

  follow-Owed :
      (total : ℕ) (c : Json) (cs : List Json) (v : Verdict) (rest : ℕ → State → ℕ → Pass) (last : ℕ)
      (state : State) (accepted : ℕ) (summary : Summary)
      → Judged last c v
      → All (λ d. comment_id c < comment_id d) cs
      → GoesWell cs rest
      → state.last_seen_comment_id ≡ last
      → (follow services total (comment_id c) v rest last state accepted).outcome ≡ ok summary
      → Owed
          (c ∷ cs)
          last
          state
          (follow services total (comment_id c) v rest last state accepted)
          summary
  unfolding follow GoesWell
  follow-Owed total c cs known rest last state accepted summary j above go e h =
      let owed = go last state accepted summary e h in
      record {
        served = (λ action auth lt. absurd (omega arith), owed.served);
        grown = owed.grown;
        saved = owed.saved;
      }
  follow-Owed total c cs (broken x) rest last state accepted summary j above go e h = cc
  follow-Owed total c cs (ignored created) rest last state accepted summary j above go e h =
      let owed =
        go (comment_id c) (seen_state services state (comment_id c) created) accepted summary refl
          h in
      record {
        served = (
          λ action auth lt. absurd (j.1 action auth),
          Served-later last (comment_id c) summary.last_seen_comment_id
              (rest (comment_id c) (seen_state services state (comment_id c) created)
                accepted).journal
              cs above owed.served,
        );
        grown = omega (arith, owed.grown, j.0);
        saved = owed.saved;
      }
  follow-Owed total c cs (command created action) rest last state accepted summary j above go e h =
      let id = comment_id c in
      let state' = state_after services (seen_state services state id created) id action in
      let refresh =
        refresh_result services action (finished services (services.execute_action action id)) in
      let owed =
        after_command-Owed total id (suc accepted) refresh cs rest state' summary above go refl h in
      let pass =
        after_command services total id (suc accepted) refresh (rest id state' (suc accepted)) in
      let events = command_events services (seen_state services state id created) id action in
      record {
        served = (
          λ action' auth lt. inl (inl (refl, cc (j.1, auth))),
          Served-later last id summary.last_seen_comment_id (events ++ pass.journal) cs above (
              Served-more id summary.last_seen_comment_id pass.journal (events ++ pass.journal) cs
                (λ i a r. inr r) owed.served),
        );
        grown = omega (arith, owed.grown, j.0);
        saved = owed.saved;
      }

  process_comments-GoesWell :
      (total : ℕ) (cs : List Json)
      → Ascending cs
      → GoesWell cs (process_comments services cs total since)
  unfolding process_comments GoesWell
  process_comments-GoesWell total [] up last state accepted summary e h =
      let same : last ≡ summary.last_seen_comment_id =
        ap (λ (s : Summary). s.last_seen_comment_id) (ok-injective h) in
      record { served = tt; grown = omega arith; saved = e ∙ same }
  process_comments-GoesWell total (c ∷ cs) (above, up) last state accepted summary e h =
      follow-Owed total c cs (classify services since last c)
        (process_comments services cs total since) last state accepted summary
        (classify-Judged last c) above (process_comments-GoesWell total cs up) e h

-- A pass that ends well has run the command of every fetched comment that is the owner's and that
-- was not yet seen, or says that it was not: its number lies above the last one that the pass
-- reports as seen, and the state on the disk holds that number for the next pass. The comments
-- have different numbers, in any order.
pub no_command_lost :
    (services : Services) (state : State) (start : ℕ) (comments : List Json) {summary : Summary}
    → fetch services state ≡ ok (start, comments)
    → DistinctIds comments
    → (process_once services state).outcome ≡ ok summary
    → All
        (Served services start state.last_seen_comment_id summary.last_seen_comment_id
          (process_once services state).journal)
        comments
      × ((on_disk state (process_once services state).journal).last_seen_comment_id
          ≡ summary.last_seen_comment_id)
unfolding process_once GoesWell
no_command_lost services state start comments {summary} fetched distinct h =
    let pass =
      process_comments services (sort_by_id comments) (length comments) start
        state.last_seen_comment_id state 0 in
    let owed =
      process_comments-GoesWell services start (length comments) (sort_by_id comments)
        (sort_by_id-Ascending comments distinct) state.last_seen_comment_id state 0 summary refl
        (rw (fetched, process_once) at h) in
    rw (fetched, process_once)
      (
        (All-sort_by_id
              (Served services start state.last_seen_comment_id summary.last_seen_comment_id
                pass.journal)
              comments).0
            owed.served,
        owed.saved,
      )
