-- ===== src/Broker/Process/AtMostOnce.antt =====
-- No command runs twice, across passes, crashes and failed writes.
use desktop_pc24x7_runtime.Prelude.{
  ℕ, zero, suc, ◌≤◌, ◌<◌, ◌≡◌, refl, Option, none, some, List, [], ◌∷◌, ◌++◌, arith, inl, inr,
  length,
}
use native.Mathlib.Nat.{le_refl}
use desktop_pc24x7_runtime.Result.{Result-cases}
use desktop_pc24x7_runtime.Json.{Json}
use desktop_pc24x7_runtime.Broker.Process.{
  State, Event, persisted, executed, published, Services, Pass, Verdict, known, broken, ignored,
  command, comment_id, classify, follow, seen_state, state_after, after_command, finished,
  refresh_result, fetch, sort_by_id, process_comments, process_once,
}
use desktop_pc24x7_runtime.Broker.Process.Journal.{
  take, on_disk, run_ids, history, Increasing, Careful,
}

module _ (services : Services) where
  -- A comment that is not skipped has a number above the last one seen.
  abbrev IsAbove : ℕ → ℕ → Verdict → Type 0
  IsAbove last id known = Unit
  IsAbove last id _ = last < id

  classify-IsAbove :
      (since last : ℕ) (comment : Json)
      → IsAbove last (comment_id comment) (classify services since last comment)
  unfolding classify
  classify-IsAbove since last comment = ground arith

  -- What the loop goes on with is careful wherever it starts.
  abbrev GoesOn : (ℕ → State → ℕ → Pass) → Type 0
  GoesOn rest =
      (last : ℕ) (state : State) (accepted top : ℕ)
      → state.last_seen_comment_id ≡ last
      → top ≤ last
      → Careful last top (rest last state accepted).journal

  after_command-Careful :
      (total id accepted seen top : ℕ) (refresh : Option Json) (rest : Pass)
      → Careful seen top rest.journal
      → Careful seen top (after_command services total id accepted refresh rest).journal
  after_command-Careful total id accepted seen top none rest h = h
  after_command-Careful total id accepted seen top (some refresh) rest h = tt

  follow-Careful :
      (total id : ℕ) (v : Verdict) (rest : ℕ → State → ℕ → Pass)
      → GoesOn rest
      → (last : ℕ) (state : State) (accepted top : ℕ) → IsAbove last id v
      → state.last_seen_comment_id ≡ last
      → top ≤ last
      → Careful last top (follow services total id v rest last state accepted).journal
  unfolding follow
  follow-Careful total id known rest go last state accepted top above e le =
      go last state accepted top e le
  follow-Careful total id (broken x) rest go last state accepted top above e le = tt
  follow-Careful total id (ignored created) rest go last state accepted top above e le =
      (omega arith, go id (seen_state services state id created) accepted top refl (omega arith))
  follow-Careful total id (command created action) rest go last state accepted top above e le =
      let state' = seen_state services state id created in
      let later =
        after_command-Careful total id (suc accepted) id id
          (refresh_result services action (finished services (services.execute_action action id)))
          (rest id (state_after services state' id action) (suc accepted))
          (go id (state_after services state' id action) (suc accepted) id refl (le_refl id)) in
      (omega arith, (omega arith, le_refl id, (le_refl id, (le_refl id, later))))

  process_comments-Careful :
      (total since : ℕ) (comments : List Json)
      → GoesOn (process_comments services comments total since)
  unfolding process_comments
  process_comments-Careful total since [] last state accepted top e le = tt
  process_comments-Careful total since (c ∷ cs) last state accepted top e le =
      follow-Careful total (comment_id c) (classify services since last c)
        (process_comments services cs total since) (process_comments-Careful total since cs) last
        state accepted top (classify-IsAbove since last c) e le

  process_once-Careful :
      (state : State) (top : ℕ)
      → top ≤ state.last_seen_comment_id
      → Careful state.last_seen_comment_id top (process_once services state).journal
  unfolding process_once
  process_once-Careful state top le = elim (Result-cases (fetch services state)) [
    | inr (x, p) ↦ rw (p, process_once) tt
    | inl ((start, comments), p) ↦
        rw (p, process_once)
          (process_comments-Careful (length comments) start (sort_by_id comments)
            state.last_seen_comment_id state 0 top refl le)
  ]

Careful-take :
    (seen top n : ℕ) (es : List Event) → Careful seen top es → Careful seen top (take n es)
Careful-take seen top zero es h = tt
Careful-take seen top (suc n) [] h = tt
Careful-take seen top (suc n) (persisted s ∷ es) h =
    (h.0, Careful-take s.last_seen_comment_id top n es h.1)
Careful-take seen top (suc n) (executed id action ∷ es) h =
    (h.0, h.1, Careful-take seen id n es h.2)
Careful-take seen top (suc n) (published a ∷ es) h = Careful-take seen top n es h

-- A careful journal goes on with what is careful from the disk that it leaves.
Careful-append :
    (state : State) (top : ℕ) (es fs : List Event)
    → top ≤ state.last_seen_comment_id
    → Careful state.last_seen_comment_id top es
    → ((top' : ℕ)
        → top' ≤ (on_disk state es).last_seen_comment_id
        → Careful (on_disk state es).last_seen_comment_id top' fs)
    → Careful state.last_seen_comment_id top (es ++ fs)
Careful-append state top [] fs le h go = go top le
Careful-append state top (persisted s ∷ es) fs le h go =
    (h.0, Careful-append s top es fs (omega arith) h.1 go)
Careful-append state top (executed id action ∷ es) fs le h go =
    (h.0, h.1, Careful-append state id es fs h.1 h.2 go)
Careful-append state top (published a ∷ es) fs le h go = Careful-append state top es fs le h go

history-Careful :
    (runs : List (Services × ℕ)) (state : State) (top : ℕ)
    → top ≤ state.last_seen_comment_id
    → Careful state.last_seen_comment_id top (history runs state)
unfolding history
history-Careful [] state top le = tt
history-Careful ((services, cut) ∷ rest) state top le =
    let events = take cut (process_once services state).journal in
    Careful-append state top events (history rest (on_disk state events)) le
      (Careful-take _ top cut _ (process_once-Careful services state top le))
      (history-Careful rest (on_disk state events))

Increasing-run_ids :
    (seen top : ℕ) (es : List Event) → Careful seen top es → Increasing top (run_ids es)
Increasing-run_ids seen top [] h = tt
Increasing-run_ids seen top (persisted s ∷ es) h =
    Increasing-run_ids s.last_seen_comment_id top es h.1
Increasing-run_ids seen top (executed id action ∷ es) h = (h.0, Increasing-run_ids seen id es h.2)
Increasing-run_ids seen top (published a ∷ es) h = Increasing-run_ids seen top es h

-- Over any passes, each begun from the state that the disk held and each cut off after any number
-- of its events, whatever GitHub and the commands answered, the numbers of the comments whose
-- commands ran are strictly increasing, and all above the last one that the first disk had seen:
-- no command runs twice.
pub commands_at_most_once :
    (runs : List (Services × ℕ)) (state : State)
    → Increasing state.last_seen_comment_id (run_ids (history runs state))
commands_at_most_once runs state =
    Increasing-run_ids state.last_seen_comment_id state.last_seen_comment_id (history runs state)
      (history-Careful runs state state.last_seen_comment_id (le_refl state.last_seen_comment_id))
