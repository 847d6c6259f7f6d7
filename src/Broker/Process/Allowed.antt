-- ===== src/Broker/Process/Allowed.antt =====
-- A pass runs nothing but commands, and a command that raises leaves a bounded code.
use Prim.Native.String.{count}
use desktop_pc24x7_runtime.Prelude.{
  ℕ, ◌≤◌, ◌≡◌, ◌≢◌, ◌⊎◌, inl, inr, suc, true, Option, none, some, List, [], ◌∷◌, String, arith, leb,
  length, Bool-cases,
}
use desktop_pc24x7_runtime.Json.{Json}
use desktop_pc24x7_runtime.Result.{ok, Exception, broker_error, Result-cases}
use desktop_pc24x7_runtime.Text.{Python}
use desktop_pc24x7_runtime.Broker.Comment.{authorize_comment}
use desktop_pc24x7_runtime.Broker.Process.{
  State, Services, Pass, Verdict, known, broken, ignored, command, comment_id, classify, follow,
  seen_state, state_after, after_command, finished, refresh_result, fetch, insert_by_id, sort_by_id,
  process_comments, process_once, is_controlled,
}
use desktop_pc24x7_runtime.Broker.Process.Complete.{Ran}

-- Some comment of the list.
abbrev pub Among : (Json → Type 0) → List Json → Type 0
Among P [] = ⊥
Among P (c ∷ cs) = P c ⊎ Among P cs

module _ (P : Json → Type 0) where
  Among-insert_by_id : (c : Json) (cs : List Json) → Among P (insert_by_id c cs) → Among P (c ∷ cs)
  unfolding insert_by_id
  Among-insert_by_id c [] h = h
  Among-insert_by_id c (d ∷ ds) h = elim (Bool-cases (leb (comment_id c) (comment_id d))) [
    | inl e ↦ rw (e, insert_by_id) at h
    | inr e ↦ elim (let h' : Among P (d ∷ insert_by_id c ds) = rw (e, insert_by_id) at h in h') [
      | inl p ↦ inr (inl p)
      | inr q ↦ elim (Among-insert_by_id c ds q) [ inl p ↦ inl p | inr r ↦ inr (inr r) ]
    ]
  ]

  Among-sort_by_id : (cs : List Json) → Among P (sort_by_id cs) → Among P cs
  unfolding sort_by_id
  Among-sort_by_id [] h = h
  Among-sort_by_id (c ∷ cs) h = elim (Among-insert_by_id c (sort_by_id cs) h) [
    | inl p ↦ inl p
    | inr q ↦ inr (Among-sort_by_id cs q)
  ]

module _ (services : Services) (since : ℕ) where
  abbrev pub Commands : ℕ → String → Json → Type 0
  Commands id action c =
      (comment_id c ≡ id)
      × (authorize_comment services.python c since (services.reference (comment_id c))
          ≡ ok (some action))

  abbrev Permits : Json → Verdict → Type 0
  Permits c (command created action) =
      authorize_comment services.python c since (services.reference (comment_id c))
      ≡ ok (some action)
  Permits c _ = Unit

  classify-Permits : (last : ℕ) (c : Json) → Permits c (classify services since last c)
  unfolding classify
  classify-Permits last c = ground arith

  -- Every command that the loop runs, from wherever it starts, is one of the comments.
  RunsOnly : List Json → (ℕ → State → ℕ → Pass) → Type 0
  RunsOnly cs rest =
      (last : ℕ) (state : State) (accepted id : ℕ) (action : String)
      → Ran id action (rest last state accepted).journal
      → Among (Commands id action) cs

  after_command-RunsOnly :
      (total id accepted i : ℕ) (a : String) (refresh : Option Json) (rest : Pass)
      → Ran i a (after_command services total id accepted refresh rest).journal
      → Ran i a rest.journal
  after_command-RunsOnly total id accepted i a none rest h = h
  after_command-RunsOnly total id accepted i a (some refresh) rest h = absurd h

  follow-RunsOnly :
      (total : ℕ) (c : Json) (cs : List Json) (v : Verdict) (rest : ℕ → State → ℕ → Pass)
      → Permits c v
      → RunsOnly cs rest
      → (last : ℕ) (state : State) (accepted id : ℕ) (action : String)
      → Ran id action (follow services total (comment_id c) v rest last state accepted).journal
      → Among (Commands id action) (c ∷ cs)
  unfolding follow RunsOnly
  follow-RunsOnly total c cs known rest p go last state accepted id action h =
      inr (go last state accepted id action h)
  follow-RunsOnly total c cs (broken e) rest p go last state accepted id action h = absurd h
  follow-RunsOnly total c cs (ignored created) rest p go last state accepted id action h =
      inr
        (go (comment_id c) (seen_state services state (comment_id c) created) accepted id action h)
  follow-RunsOnly total c cs (command created b) rest p go last state accepted id action
        (inl (e, f)) =
      inl (e, cc (p, f))
  follow-RunsOnly total c cs (command created b) rest p go last state accepted id action (inr h) =
      let state' =
        state_after services (seen_state services state (comment_id c) created) (comment_id c) b in
      let refresh =
        refresh_result services b (finished services (services.execute_action b (comment_id c))) in
      let h' =
        after_command-RunsOnly total (comment_id c) (suc accepted) id action refresh
          (rest (comment_id c) state' (suc accepted)) h in
      inr (go (comment_id c) state' (suc accepted) id action h')

  process_comments-RunsOnly :
      (total : ℕ) (cs : List Json) → RunsOnly cs (process_comments services cs total since)
  unfolding process_comments RunsOnly
  process_comments-RunsOnly total [] last state accepted id action h = h
  process_comments-RunsOnly total (c ∷ cs) last state accepted id action h =
      follow-RunsOnly total c cs (classify services since last c)
        (process_comments services cs total since) (classify-Permits last c)
        (process_comments-RunsOnly total cs) last state accepted id action h

-- Whatever a pass runs, however it ends, is the command of a fetched comment that the broker takes
-- for the owner's, under that comment's number.
pub runs_authorized_only :
    (services : Services) (state : State) (id : ℕ) (action : String)
    → Ran id action (process_once services state).journal
    → (start : ℕ) × (comments : List Json) × (fetch services state ≡ ok (start, comments))
      × Among (Commands services start id action) comments
unfolding process_once RunsOnly
runs_authorized_only services state id action h = elim (Result-cases (fetch services state)) [
  | inr (e, p) ↦ absurd (rw (p, process_once) at h)
  | inl ((start, comments), p) ↦ (
    start,
    comments,
    p,
    Among-sort_by_id (Commands services start id action) comments (
        process_comments-RunsOnly services start (length comments) (sort_by_id comments)
          state.last_seen_comment_id state 0 id action (rw (p, process_once) at h)),
  )
]

-- The message of a BrokerError that may be recorded: stripped, it is not empty, has at most 120
-- characters, and each is a letter, a digit, "_", ":" or "-".
abbrev pub IsRecordable : Python → Exception → Type 0
IsRecordable python exc =
    (exc.class ≡ broker_error)
    × (python.strip exc.message ≢ "")
    × (count (python.strip exc.message) ≤ 120)
    × (is_controlled python.isalnum (python.strip exc.message) ≡ true)

-- A code is the exception's message, or the name of its class, as the message allows.
abbrev pub IsCodeOf : Services → Exception → String → Type 0
IsCodeOf services exc code =
    (IsRecordable services.python exc × (code ≡ (services.python).strip exc.message))
    ⊎ ((¬ IsRecordable services.python exc) × (code ≡ services.class_name exc.class))
