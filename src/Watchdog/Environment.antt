-- ===== src/Watchdog/Environment.antt =====
-- The environment that the watchdog hands to a listener.
use desktop_pc24x7_runtime.Prelude.{
  Bool, true, false, not, ◌&&◌, ◌||◌, none, List, [], ◌∷◌, String, ◌==◌, Bool-cases, inl, inr,
  contains, lookup, eq_iff, ◌≡◌, ap, arith, if◌then◌else◌,
}

-- The names of ORCHESTRATOR_ENV_KEYS.
abbrev pub orchestrator_env_keys : List String
orchestrator_env_keys =
    "systemroot" ∷ "windir" ∷ "comspec" ∷ "path" ∷ "pathext" ∷ "os" ∷ "username" ∷ "userdomain"
    ∷ "computername" ∷ "userprofile" ∷ "appdata" ∷ "localappdata" ∷ "homedrive" ∷ "homepath"
    ∷ "temp" ∷ "tmp" ∷ "processor_architecture" ∷ "processor_identifier" ∷ "number_of_processors"
    ∷ "programfiles" ∷ "programfiles(x86)" ∷ "programw6432" ∷ "programdata" ∷ "allusersprofile"
    ∷ "public" ∷ []

-- environment.pop(key, None)
unfoldable pub pop : String → List (String × String) → List (String × String)
pop key [] = []
pop key ((k, v) ∷ env) = if k == key then pop key env else (k, v) ∷ pop key env

-- {key: value for key, value in environment.items() if ...}
unfoldable pub keep_keys : (String → Bool) → List (String × String) → List (String × String)
keep_keys kept [] = []
keep_keys kept ((k, v) ∷ env) =
    let rest = keep_keys kept env in if kept k then (k, v) ∷ rest else rest

unfoldable pub orchestrator_runner_environment :
    (String → String) → List (String × String) → List (String × String)
unfolding keep_keys
orchestrator_runner_environment casefold env =
    keep_keys (λ key. contains orchestrator_env_keys (casefold key)) env

-- The environment of the listener.
unfoldable pub child_environment :
    (String → String) → Bool → List (String × String) → List (String × String)
unfolding pop orchestrator_runner_environment
child_environment casefold orchestrator environ = pop "GITHUB_TOKEN" (
    pop "GH_TOKEN" (
      pop "RUNNER_TRACKING_ID"
        (if orchestrator then orchestrator_runner_environment casefold environ else environ)))

lookup-pop :
    (key asked : String) (env : List (String × String))
    → lookup asked (pop key env) ≡ (if key == asked then none else lookup asked env)
unfolding pop lookup
lookup-pop key asked [] = ground arith
lookup-pop key asked ((k, v) ∷ env) =
    ground (arith, lookup-pop key asked env, eq_iff k asked, eq_iff key asked, eq_iff k key)

lookup-keep_keys :
    (kept : String → Bool) (asked : String) (env : List (String × String))
    → lookup asked (keep_keys kept env) ≡ (if kept asked then lookup asked env else none)
unfolding keep_keys lookup
lookup-keep_keys kept asked [] = ground arith
lookup-keep_keys kept asked ((k, v) ∷ env) = elim (Bool-cases (k == asked)) [
  | inl e ↦
      let same : kept k ≡ kept asked = ap kept ((eq_iff k asked).0 e) in
      ground (arith, same, e, lookup-keep_keys kept asked env)
  | inr e ↦ ground (arith, e, lookup-keep_keys kept asked env)
]

-- The credentials of a job, and the mark by which a job's end would kill the listener.
abbrev pub is_withheld : String → Bool
is_withheld key = "RUNNER_TRACKING_ID" == key || ("GH_TOKEN" == key || "GITHUB_TOKEN" == key)

-- A variable of the listener's environment has the value that it has for the watchdog, but for the
-- three withheld ones, and, in the second runner, for all that are not in its list of fixed ones: those
-- are unset.
pub lookup-child_environment :
    (casefold : String → String) (orchestrator : Bool) (environ : List (String × String))
    (asked : String)
    → lookup asked (child_environment casefold orchestrator environ) ≡ (
        if is_withheld asked
          || (orchestrator && not (contains orchestrator_env_keys (casefold asked)))
        then none
        else lookup asked environ)
unfolding child_environment orchestrator_runner_environment
lookup-child_environment casefold orchestrator environ asked =
    go (λ key. contains orchestrator_env_keys (casefold key)) orchestrator
  where
    go :
        (kept : String → Bool) (orchestrator : Bool)
        → lookup asked (
            pop "GITHUB_TOKEN" (
              pop "GH_TOKEN" (
                pop "RUNNER_TRACKING_ID"
                  (if orchestrator then keep_keys kept environ else environ))))
          ≡ (if is_withheld asked || (orchestrator && not (kept asked))
              then none
              else lookup asked environ)
    go kept true =
        let base = keep_keys kept environ in
        ground (
          arith,
          lookup-keep_keys kept asked environ,
          lookup-pop "RUNNER_TRACKING_ID" asked base,
          lookup-pop "GH_TOKEN" asked (pop "RUNNER_TRACKING_ID" base),
          lookup-pop "GITHUB_TOKEN" asked (pop "GH_TOKEN" (pop "RUNNER_TRACKING_ID" base)),
        )
    go kept false = ground (
      arith,
      lookup-pop "RUNNER_TRACKING_ID" asked environ,
      lookup-pop "GH_TOKEN" asked (pop "RUNNER_TRACKING_ID" environ),
      lookup-pop "GITHUB_TOKEN" asked (pop "GH_TOKEN" (pop "RUNNER_TRACKING_ID" environ)),
    )
