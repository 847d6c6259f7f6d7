-- ===== src/Supervisor/Breaker.antt =====
-- The circuit breaker over any number of cycles: how often one target is recovered.
use desktop_pc24x7_runtime.Prelude.{
  ℕ, ◌+◌, ◌≤◌, ◌<◌, ◌≡◌, sym, ◌∙◌, Bool, true, false, some, List, [], ◌∷◌, ◌++◌, String, arith,
  lookup, insert, lookup-insert, All, ◌==◌, eq_iff, if◌then◌else◌, Option, inl, inr,
}
use desktop_pc24x7_runtime.Json.{Json}
use desktop_pc24x7_runtime.Result.{ok, raised, Result-cases, ok-injective}
use desktop_pc24x7_runtime.Supervisor.Config.{target_name}
use desktop_pc24x7_runtime.Supervisor.Cycle.{
  Entry, Item, State, Evidence, Surroundings, Limits, is_ok, Reason, recovery_attempted,
  entry_or_new, visit, visit_all, visit_all-cons, run_cycle-Finished, run_cycle, int_field,
}

abbrev pub was_recovered : Option Reason → Bool
was_recovered (some recovery_attempted) = true
was_recovered _ = false

-- The recoveries of the target `n` among the items of a cycle.
abbrev pub recoveries : String → List Item → ℕ
recoveries n [] = 0
recoveries n (item ∷ items) =
    (if item.name == n then (if was_recovered item.reason then 1 else 0) else 0)
    + recoveries n items

-- No item of the target `n` is healthy.
abbrev pub NeverHealthy : String → List Item → Type 0
NeverHealthy n = All (λ item. (item.name == n) ≡ true → is_ok item.status ≡ false)

abbrev pub attempts_of : String → List (String × Entry) → ℕ
attempts_of n table = (entry_or_new (lookup n table)).attempts

module _ (env : Surroundings) (apply : Bool) (limits : Limits) where
  visit_attempts :
      (t : Json) (entry : Entry) {r : Item × Entry}
      → visit env apply limits t entry ≡ ok r
      → is_ok r.0.status ≡ false
      → (r.0.name ≡ target_name t)
        × (r.1.attempts ≡ (if was_recovered r.0.reason then 1 else 0) + entry.attempts)
        × (entry.attempts ≤ limits.max_attempts → r.1.attempts ≤ limits.max_attempts)
  unfolding visit
  visit_attempts t entry h u = ground arith

  visit_name :
      (t : Json) (entry : Entry) {r : Item × Entry}
      → visit env apply limits t entry ≡ ok r
      → r.0.name ≡ target_name t
  unfolding visit
  visit_name t entry h = ground arith

  attempts_of-insert :
      (n j : String) (entry : Entry) (table : List (String × Entry))
      → attempts_of n (insert j entry table)
        ≡ (if j == n then entry.attempts else attempts_of n table)
  attempts_of-insert n j entry table = ground (arith, lookup-insert j n entry table)

  -- What a stretch of visits did to the attempts counted for `n`.
  abbrev Counted : String → List (String × Entry) → List Item → List (String × Entry) → Type 0
  Counted n before items after =
      (attempts_of n after ≡ recoveries n items + attempts_of n before)
      × (attempts_of n before ≤ limits.max_attempts → attempts_of n after ≤ limits.max_attempts)

  visit-Counted :
      (n : String) (t : Json) (table : List (String × Entry)) (visited : Item × Entry)
      → visit env apply limits t (entry_or_new (lookup (target_name t) table)) ≡ ok visited
      → ((visited.0.name == n) ≡ true → is_ok visited.0.status ≡ false)
      → Counted n table (visited.0 ∷ []) (insert (target_name t) visited.1 table)
  visit-Counted n t table visited h u = ground (
    arith,
    visit_name t (entry_or_new (lookup (target_name t) table)) h,
    visit_attempts t (entry_or_new (lookup (target_name t) table)) h,
    attempts_of-insert n (target_name t) visited.1 table,
    eq_iff visited.0.name n,
    eq_iff (target_name t) n,
  )

  visit_all-Counted :
      (n : String) (ts : List Json) (table : List (String × Entry))
      {r : List Item × List (String × Entry)}
      → visit_all env apply limits ts table ≡ ok r
      → NeverHealthy n r.0
      → Counted n table r.0 r.1
  unfolding visit_all
  visit_all-Counted n [] table h u = ground arith
  visit_all-Counted n (t ∷ ts) table h u =
      let (visited, others, first, later, e) = visit_all-cons env apply limits t ts table h in
      let v = rw (← e) at u in
      let one = visit-Counted n t table visited first v.0 in
      let more = visit_all-Counted n ts (insert (target_name t) visited.1 table) later v.1 in
      rw (← e) (omega (arith, one, more))

-- The cycles of one configuration, one after the other: the items of those that finish, and the
-- last state. The main program runs one cycle in each process, from the state file; a cycle that
-- raises ends its process before the file is written, so the next one goes on from the old state.
unfoldable pub run_cycles : Json → List (Surroundings × Bool) → State → List Item × State
run_cycles config [] state = ([], state)
run_cycles config ((env, apply) ∷ rest) state = elim (run_cycle env apply config state) [
  | raised _ ↦ run_cycles config rest state
  | ok r ↦ let more = run_cycles config rest r.1 in (r.0.targets ++ more.0, more.1)
]

-- Every cycle reads the number `m` from the configuration.
abbrev pub ReadsMax : Json → ℕ → List (Surroundings × Bool) → Type 0
ReadsMax config m = All (λ (env, _). int_field env.int_of_text "max_attempts" 3 config ≡ ok m)

recoveries-append :
    (n : String) (xs ys : List Item) → recoveries n (xs ++ ys) ≡ recoveries n xs + recoveries n ys
recoveries-append n [] ys = omega arith
recoveries-append n (x ∷ xs) ys = omega (arith, recoveries-append n xs ys)

NeverHealthy-append :
    (n : String) (xs ys : List Item)
    → NeverHealthy n (xs ++ ys)
    → NeverHealthy n xs × NeverHealthy n ys
NeverHealthy-append n [] ys h = (tt, h)
NeverHealthy-append n (x ∷ xs) ys h = let (a, b) = NeverHealthy-append n xs ys h.1 in ((h.0, a), b)

run_cycle-Counted :
    (n : String) (env : Surroundings) (apply : Bool) (config : Json) (state : State) (m : ℕ)
    {r : Evidence × State}
    → int_field env.int_of_text "max_attempts" 3 config ≡ ok m
    → run_cycle env apply config state ≡ ok r
    → NeverHealthy n r.0.targets
    → (attempts_of n r.1.targets ≡ recoveries n r.0.targets + attempts_of n state.targets)
      × (attempts_of n state.targets ≤ m → attempts_of n r.1.targets ≤ m)
run_cycle-Counted n env apply config state m reads h u =
    let fin = run_cycle-Finished env apply config state h in
    let same : fin.limits.max_attempts ≡ m = ok-injective (sym fin.read_max ∙ reads) in
    let counted =
      visit_all-Counted env apply fin.limits n fin.targets state.targets fin.visits
        (rw (← fin.result) at u) in
    rw (← fin.result) (omega (arith, counted, same))

-- Over any number of cycles on one configuration, whatever the times between them, some of which
-- may raise and leave the state as it was: a target that no finished cycle finds healthy is
-- reported as recovered, in the finished cycles together, at most as often as the configured limit
-- allows beyond the attempts that the first state counts. What a cycle did before it raised is not
-- counted, here as in the state.
pub recoveries_bounded :
    (n : String) (config : Json) (m : ℕ) (cycles : List (Surroundings × Bool)) (state : State)
    → ReadsMax config m cycles
    → NeverHealthy n (run_cycles config cycles state).0
    → attempts_of n state.targets ≤ m
    → recoveries n (run_cycles config cycles state).0 + attempts_of n state.targets ≤ m
unfolding run_cycles
recoveries_bounded n config m [] state reads u le = ground arith
recoveries_bounded n config m ((env, apply) ∷ rest) state reads u le =
    elim (Result-cases (run_cycle env apply config state)) [
      | inr (e, raises) ↦
          rw (raises, run_cycles)
            (recoveries_bounded n config m rest state reads.1 (rw (raises, run_cycles) at u) le)
      | inl (one, first) ↦
          let more = run_cycles config rest one.1 in
          let u' : NeverHealthy n (one.0.targets ++ more.0) = rw (first, run_cycles) at u in
          let (u₀, u₁) = NeverHealthy-append n one.0.targets more.0 u' in
          let counted = run_cycle-Counted n env apply config state m reads.0 first u₀ in
          let bound = recoveries_bounded n config m rest one.1 reads.1 u₁ (counted.1 le) in
          rw (first, run_cycles)
            (omega (arith, recoveries-append n one.0.targets more.0, counted, bound))
    ]

-- An entry whose breaker was opened has used its attempts up.
abbrev IsSpent : ℕ → Entry → Type 0
IsSpent m entry = 0 < entry.opened_at_epoch → m ≤ entry.attempts

-- A visit to an entry that is spent, if its breaker is open, leaves such an entry.
visit-IsSpent :
    (env : Surroundings) (apply : Bool) (limits : Limits) (t : Json) (entry : Entry)
    {r : Item × Entry}
    → IsSpent limits.max_attempts entry
    → visit env apply limits t entry ≡ ok r
    → IsSpent limits.max_attempts r.1
unfolding visit
visit-IsSpent env apply limits t entry spent h = ground arith
