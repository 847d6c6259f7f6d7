-- ===== src/Supervisor/Outcome.antt =====
-- What a finished cycle reports of the targets that it visited.
use desktop_pc24x7_runtime.Prelude.{
  ◌≡◌, refl, sym, ◌∙◌, Bool, false, some, List, [], ◌∷◌, String, arith, all, if◌then◌else◌,
}
use desktop_pc24x7_runtime.Json.{Json, get, is_true}
use desktop_pc24x7_runtime.Result.{Result, ok, raised, ok-injective}
use desktop_pc24x7_runtime.Supervisor.Config.{target_list}
use desktop_pc24x7_runtime.Supervisor.Cycle.{
  Entry, Item, State, Evidence, status_ok, infra_unavailable, Surroundings, Limits, is_ok, visit,
  visit_all, visit_all-cons, run_cycle-Finished, run_cycle,
}

-- A probe that returned, and said True.
abbrev pub found_healthy : Result Json → Bool
found_healthy (ok probe) = is_true (get "healthy" probe)
found_healthy (raised _) = false

module _ (env : Surroundings) (apply : Bool) (limits : Limits) where
  visit_status :
      (t : Json) (entry : Entry) {r : Item × Entry}
      → visit env apply limits t entry ≡ ok r
      → is_ok r.0.status ≡ found_healthy (env.probe_fn t)
  unfolding visit
  visit_status t entry h = ground arith

  all-visit_all :
      (ts : List Json) (table : List (String × Entry)) {r : List Item × List (String × Entry)}
      → visit_all env apply limits ts table ≡ ok r
      → all (λ item. is_ok item.status) r.0 ≡ all (λ t. found_healthy (env.probe_fn t)) ts
  unfolding visit_all
  all-visit_all [] table h = ground arith
  all-visit_all (t ∷ ts) table h =
      let (visited, others, first, later, e) = visit_all-cons env apply limits t ts table h in
      rw (← e) (cc (visit_status t _ first, all-visit_all ts _ later))

-- A cycle that finishes reports "ok", in its evidence and in the state, exactly if the probe of every
-- configured target returned and said that the target is healthy: a recovery, whatever it returned,
-- never makes the cycle ok.
pub run_cycle-status :
    (env : Surroundings) (apply : Bool) (config : Json) (state : State) (ts : List Json)
    {r : Evidence × State}
    → target_list (get "targets" config) ≡ ok ts
    → run_cycle env apply config state ≡ ok r
    → (r.0.status
        ≡ (if all (λ t. found_healthy (env.probe_fn t)) ts then status_ok else infra_unavailable))
      × (r.1.status ≡ some r.0.status)
run_cycle-status env apply config state ts listed h =
    let fin = run_cycle-Finished env apply config state h in
    let same : fin.targets ≡ ts = ok-injective (sym fin.listed ∙ listed) in
    let statuses =
      rw same at (all-visit_all env apply fin.limits fin.targets state.targets fin.visits) in
    rw (← fin.result) (rw statuses (refl, refl))
