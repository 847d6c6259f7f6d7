-- ===== src/Broker/Process/Journal.antt =====
-- Journals of passes that may be cut off at any event, and the state that they leave on the disk.
use desktop_pc24x7_runtime.Prelude.{ℕ, zero, suc, ◌≤◌, ◌<◌, List, [], ◌∷◌, ◌++◌}
use desktop_pc24x7_runtime.Broker.Process.{
  State, Event, persisted, executed, published, Services, process_once,
}

-- The first `n` events: what a crash or a failed write after them leaves.
abbrev pub take : ℕ → List Event → List Event
take zero events = []
take (suc n) [] = []
take (suc n) (e ∷ es) = e ∷ take n es

-- The state that the events leave on a disk that held `state`.
abbrev pub on_disk : State → List Event → State
on_disk state [] = state
on_disk state (persisted s ∷ es) = on_disk s es
on_disk state (executed _ _ ∷ es) = on_disk state es
on_disk state (published _ ∷ es) = on_disk state es

-- The numbers of the commands that were run.
abbrev pub run_ids : List Event → List ℕ
run_ids [] = []
run_ids (persisted _ ∷ es) = run_ids es
run_ids (executed id _ ∷ es) = id ∷ run_ids es
run_ids (published _ ∷ es) = run_ids es

-- Passes one after the other, each from the state on the disk, and each cut off after some number
-- of events.
unfoldable pub history : List (Services × ℕ) → State → List Event
history [] state = []
history ((services, cut) ∷ rest) state =
    let events = take cut (process_once services state).journal in
    events ++ history rest (on_disk state events)

abbrev pub Increasing : ℕ → List ℕ → Type 0
Increasing bound [] = Unit
Increasing bound (n ∷ ns) = (bound < n) × Increasing n ns

-- The journal of a broker whose disk says that it saw the comments up to `seen`, and whose last
-- command was at most `top`: a command runs only if the disk already says that it was seen.
abbrev pub Careful : ℕ → ℕ → List Event → Type 0
Careful seen top [] = Unit
Careful seen top (persisted s ∷ es) =
    (seen ≤ s.last_seen_comment_id) × Careful s.last_seen_comment_id top es
Careful seen top (executed id _ ∷ es) = (top < id) × (id ≤ seen) × Careful seen id es
Careful seen top (published _ ∷ es) = Careful seen top es
