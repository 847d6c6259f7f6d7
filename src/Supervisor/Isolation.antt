-- ===== src/Supervisor/Isolation.antt =====
-- The targets of one cycle do not disturb one another's entries.
use desktop_pc24x7_runtime.Prelude.{
  ◌≡◌, sym, subst, ◌∙◌, Bool, false, some, List, [], ◌∷◌, String, arith, lookup, insert,
  lookup-insert, All, ◌==◌, eq_iff, eq_refl,
}
use desktop_pc24x7_runtime.Json.{Json, get}
use desktop_pc24x7_runtime.Result.{ok, ok-injective}
use desktop_pc24x7_runtime.Supervisor.Config.{
  target_list, target_name, DistinctNames, validate_config-AreTargets,
}
use desktop_pc24x7_runtime.Supervisor.Cycle.{
  Entry, Item, State, Evidence, Surroundings, Limits, entry_or_new, visit, visit_all,
  visit_all-cons, run_cycle-Finished, run_cycle, int_field,
}

module _ (env : Surroundings) (apply : Bool) (limits : Limits) where
  visit_all_frame :
      (n : String) (ts : List Json) (table : List (String × Entry))
      {r : List Item × List (String × Entry)}
      → visit_all env apply limits ts table ≡ ok r
      → All (λ t. (target_name t == n) ≡ false) ts
      → lookup n r.1 ≡ lookup n table
  unfolding visit_all
  visit_all_frame n [] table h fresh = ground arith
  visit_all_frame n (t ∷ ts) table h (other, fresh) =
      let (visited, others, first, later, e) = visit_all-cons env apply limits t ts table h in
      rw (← e) (
        visit_all_frame n ts (insert (target_name t) visited.1 table) later fresh
        ∙ rw (lookup-insert, other))

  -- `t` was visited from its entry before the cycle, and the table holds what the visit left.
  abbrev pub Visited : List (String × Entry) → List (String × Entry) → Json → Type 0
  Visited before after t =
      (v : Item × Entry) × (visit env apply limits t (entry_or_new (lookup (target_name t) before))
        ≡ ok v)
      × (lookup (target_name t) after ≡ some v.1)

  Visited-insert :
      (name : String) (entry : Entry) (before after : List (String × Entry)) (ts : List Json)
      → All (λ u. (name == target_name u) ≡ false) ts
      → All (Visited (insert name entry before) after) ts
      → All (Visited before after) ts
  Visited-insert name entry before after [] fresh h = tt
  Visited-insert name entry before after (t ∷ ts) (other, fresh) ((v, p, q), h) =
      ((v, rw (lookup-insert, other) at p, q), Visited-insert name entry before after ts fresh h)

  fresh_sym :
      (n : String) (ts : List Json)
      → All (λ u. (n == target_name u) ≡ false) ts
      → All (λ u. (target_name u == n) ≡ false) ts
  fresh_sym n [] h = tt
  fresh_sym n (t ∷ ts) (p, h) =
      (ground (arith, eq_iff n (target_name t), eq_iff (target_name t) n), fresh_sym n ts h)

  visit_all-Visited :
      (ts : List Json) (table : List (String × Entry)) {r : List Item × List (String × Entry)}
      → visit_all env apply limits ts table ≡ ok r
      → DistinctNames ts
      → All (Visited table r.1) ts
  visit_all-Visited [] table h d = tt
  visit_all-Visited (t ∷ ts) table h (fresh, d) =
      let (visited, others, first, later, e) = visit_all-cons env apply limits t ts table h in
      let table' = insert (target_name t) visited.1 table in
      let kept =
        visit_all_frame (target_name t) ts table' later (fresh_sym (target_name t) ts fresh) in
      subst (λ q. All (Visited table q.1) (t ∷ ts)) e
        (
          (visited, first, kept ∙ rw (lookup-insert, eq_refl)),
          Visited-insert (target_name t) visited.1 table others.1 ts fresh
              (visit_all-Visited ts table' later d),
        )

-- After a finished cycle the state holds, for every configured target, the entry that one visit of
-- that target makes from the entry that the cycle found, or from a new one, as if the target were
-- the only one; the entry of a name that is not configured is what it was.
pub run_cycle-isolated :
    (env : Surroundings) (apply : Bool) (config : Json) (state : State) {r : Evidence × State}
    → run_cycle env apply config state ≡ ok r
    → (ts : List Json) × (limits : Limits) × (target_list (get "targets" config) ≡ ok ts)
      × (int_field env.int_of_text "max_attempts" 3 config ≡ ok limits.max_attempts)
      × (int_field env.int_of_text "cooldown_seconds" 900 config ≡ ok limits.cooldown)
      × All (Visited env apply limits state.targets r.1.targets) ts
      × ((n : String)
          → All (λ t. (target_name t == n) ≡ false) ts
          → lookup n r.1.targets ≡ lookup n state.targets)
run_cycle-isolated env apply config state h =
    let fin = run_cycle-Finished env apply config state h in
    let (us, listed, valid) = validate_config-AreTargets config fin.valid in
    let distinct = subst DistinctNames (ok-injective (sym listed ∙ fin.listed)) valid.1 in
    subst
      (λ (q : Evidence × State).
        (us : List Json) × (limits : Limits) × (target_list (get "targets" config) ≡ ok us)
        × (int_field env.int_of_text "max_attempts" 3 config ≡ ok limits.max_attempts)
        × (int_field env.int_of_text "cooldown_seconds" 900 config ≡ ok limits.cooldown)
        × All (Visited env apply limits state.targets q.1.targets) us
        × ((n : String)
            → All (λ t. (target_name t == n) ≡ false) us
            → lookup n q.1.targets ≡ lookup n state.targets))
      fin.result
      (
        fin.targets,
        fin.limits,
        fin.listed,
        fin.read_max,
        fin.read_cooldown,
        visit_all-Visited env apply fin.limits fin.targets state.targets fin.visits distinct,
        λ n fresh.
            visit_all_frame env apply fin.limits n fin.targets state.targets fin.visits fresh,
      )
