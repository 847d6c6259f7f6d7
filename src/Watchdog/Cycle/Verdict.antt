-- ===== src/Watchdog/Cycle/Verdict.antt =====
-- What the verdict of a cycle means, and that the recoveries stand for themselves.
use desktop_pc24x7_runtime.Prelude.{
  ◌≡◌, refl, sym, ap, subst, ◌∙◌, Option, none, some, List, [], ◌∷◌, String, Bool, true, false, not,
  ◌&&◌, ◌||◌, all, if◌then◌else◌, arith,
}
use desktop_pc24x7_runtime.Result.{Result, ok, raised, watchdog_error, succeeded, ok-injective}
use desktop_pc24x7_runtime.Effect.{Effect, pure, fail_if, handle, resume, resume-eq-ok, ◌>>=◌}
use desktop_pc24x7_runtime.Watchdog.Runner.{validate_runner_home, Started, start_runner}
use desktop_pc24x7_runtime.Watchdog.Runner.Listener.{
  Names, validate_runner_home-same, start_runner-Names,
}
use desktop_pc24x7_runtime.HostPolicy.{HostProfile, authorized_host}
use desktop_pc24x7_runtime.Watchdog.Site.{
  as_watchdog_error, Site, Metadata, authorized_desktop_profile, require_windows_desktop,
}
use desktop_pc24x7_runtime.Watchdog.Cycle.{
  Component, listening, failed, CycleState, Plan, guarded, start, start_additional, conclude,
  serve_desktop, after_runners, after_runner, recover_runner, component_failure, is_primary,
  is_running, is_served, recover_desktop, requires_rdc, summary, recover_all, cycle, prepare,
  prepare_on, prepare_home, prepare_additional, rdc_policy, additional_orchestrator_runner_home,
  recovery_script, recover_rdc,
}
use desktop_pc24x7_runtime.Watchdog.Cycle.Served.{IsServed, recover_desktop-IsServed}

module _ {W : Type 0} (site : Site W) where
  -- A guarded step always ends well.
  guarded-succeeds :
      (component : String) (body : Effect W Component) (w : W)
      → succeeded (guarded site component body w).0 ≡ true
  guarded-succeeds component body w = go (body w)
    where
      go :
          (r : Result Component × W)
          → succeeded (handle r (λ exc. pure (component_failure site component exc))).0 ≡ true
      go (ok _, w) = refl
      go (raised _, w) = refl

  resume-succeeds :
      {A B : Type 0} (r : Result A × W) (next : A → Effect W B)
      → succeeded r.0 ≡ true
      → ((a : A) (w : W) → succeeded (next a w).0 ≡ true)
      → succeeded (resume r next).0 ≡ true
  resume-succeeds (ok a, w) next h rest = rest a w
  resume-succeeds (raised exc, w) next h rest = cc

  start_additional-succeeds :
      (metadata : Metadata) (home : Option String) (w : W)
      → succeeded (start_additional site metadata home w).0 ≡ true
  start_additional-succeeds metadata none w = refl
  start_additional-succeeds metadata (some home) w =
      resume-succeeds (guarded site "orchestrator_dev_runner" body w)
        (λ observed. pure (observed ∷ [])) (guarded-succeeds "orchestrator_dev_runner" body w)
        (λ _ _. refl)
    where
      body : Effect W Component
      body =
          start site home
            ((site.host).join metadata.runtime_root "logs/orchestrator-dev-runner.log")

  recover_desktop-succeeds :
      (metadata : Metadata) (plan : Plan) (required : Bool) (w : W)
      → succeeded (recover_desktop site metadata plan required w).0 ≡ true
  recover_desktop-succeeds metadata plan false w = refl
  recover_desktop-succeeds metadata plan true w =
      go ((site.host).is_file (recovery_script site metadata) w)
    where
      go :
          (there : Bool)
          → succeeded
              (if there
                then guarded site "rdc" (recover_rdc site (recovery_script site metadata)) w
                else (ok (failed "rdc" "rdc_recovery_script_missing"), w)).0
            ≡ true
      go true = guarded-succeeds "rdc" (recover_rdc site (recovery_script site metadata)) w
      go false = refl

  requires_rdc-succeeds :
      (plan : Plan) (w : W)
      → ((w : W) → succeeded (authorized_desktop_profile site plan.host w).0 ≡ true)
      → succeeded (requires_rdc site plan w).0 ≡ true
  requires_rdc-succeeds plan w known = go plan.rdc_enabled
    where
      go :
          (enabled : Bool)
          → succeeded
              ((if enabled
                  then (do
                    profile ← authorized_desktop_profile site plan.host
                    pure (is_primary site plan.rdc_enabled profile))
                  else pure false)
                w).0
            ≡ true
      go true =
          resume-succeeds (authorized_desktop_profile site plan.host w)
            (λ profile. pure (is_primary site plan.rdc_enabled profile)) (known w) (λ _ _. refl)
      go false = refl

  -- Whether a host may run the watchdog depends on its name alone.
  known-everywhere :
      (name : String) (v w : W)
      → succeeded (authorized_desktop_profile site name v).0 ≡ true
      → succeeded (authorized_desktop_profile site name w).0 ≡ true
  unfolding authorized_desktop_profile
  known-everywhere name v w h = go (authorized_host (site.host).python site.hostname name) h
    where
      go :
          (r : Result HostProfile)
          → succeeded (as_watchdog_error site r v).0 ≡ true
          → succeeded (as_watchdog_error site r w).0 ≡ true
      go (ok profile) h = ground arith
      go (raised exc) h = cc

  require_windows_desktop-known :
      (w : W) {host : String} {w' : W}
      → require_windows_desktop site w ≡ (ok host, w')
      → (v : W) → succeeded (authorized_desktop_profile site host v).0 ≡ true
  unfolding require_windows_desktop
  require_windows_desktop-known w {host} h v =
      let (_, w1, _, h1) =
        resume-eq-ok (fail_if (not site.is_windows) watchdog_error "Windows obrigatório" w)
          (λ _. rest) h in
      let (profile, w2, e2, h2) =
        resume-eq-ok (authorized_desktop_profile site site.hostname w1) (λ _. pure site.hostname)
          h1 in
      subst (λ name. succeeded (authorized_desktop_profile site name v).0 ≡ true)
        (ok-injective (ap (λ (p : Result String × W). p.0) h2))
        (known-everywhere site.hostname w1 v
          (ap (λ (p : Result HostProfile × W). succeeded p.0) e2))
    where
      rest : Effect W String
      rest = do profile ← authorized_desktop_profile site site.hostname; pure site.hostname

  prepare-known :
      (metadata : Metadata) (w : W) {plan : Plan} {w' : W}
      → prepare site metadata w ≡ (ok plan, w')
      → (v : W) → succeeded (authorized_desktop_profile site plan.host v).0 ≡ true
  unfolding prepare
  prepare-known metadata w {plan} h v =
      let (host, w1, e1, h1) =
        resume-eq-ok (require_windows_desktop site w) (prepare_on site metadata) h in
      let (home, w2, _, h2) =
        resume-eq-ok (validate_runner_home site.host metadata.runner_home w1)
          (prepare_home site metadata host) h1 in
      let (add, w3, _, h3) =
        resume-eq-ok
          (additional_orchestrator_runner_home site metadata.additional_runner_profiles w2)
          (prepare_additional site metadata host home) h2 in
      let (enabled, w4, _, h4) =
        resume-eq-ok (rdc_policy site metadata.rdc_recovery_enabled w3) (plan_of host home add)
          h3 in
      subst (λ (p : Plan). succeeded (authorized_desktop_profile site p.host v).0 ≡ true)
        (ok-injective (ap (λ (p : Result Plan × W). p.0) h4)) (require_windows_desktop-known w e1 v)
    where
      plan_of : String → String → Option String → Bool → Effect W Plan
      plan_of host home add enabled =
          pure (record {
            host = host;
            runner_home = home;
            additional_home = add;
            rdc_enabled = enabled;
          })

  -- Once the checks at its start have passed, no failure of the runner, of the second runner or of the
  -- remote desktop keeps a cycle from its end: if state.json can be written, it returns a state.
  pub cycle-returns :
      (write : CycleState → Effect W Unit) (metadata : Metadata) (w : W) {plan : Plan} {w' : W}
      → ((state : CycleState) (w : W) → succeeded (write state w).0 ≡ true)
      → prepare site metadata w ≡ (ok plan, w')
      → succeeded (cycle site write metadata w).0 ≡ true
  unfolding cycle recover_all
  cycle-returns write metadata w {plan} {w'} writes h =
      subst
        (λ (r : Result Plan × W). succeeded (resume r (recover_all site write metadata)).0 ≡ true)
        (sym h)
        (resume-succeeds (recover_runner site metadata plan w')
          (after_runner site write metadata plan)
          (guarded-succeeds "github_runner"
            (start site plan.runner_home
              ((site.host).join metadata.runtime_root "logs/github-runner.log"))
            w')
          (λ runner w1.
            resume-succeeds (start_additional site metadata plan.additional_home w1)
              (after_runners site write metadata plan runner)
              (start_additional-succeeds metadata plan.additional_home w1)
              (λ more w2.
                resume-succeeds (requires_rdc site plan w2)
                  (serve_desktop site write metadata plan runner more)
                  (requires_rdc-succeeds plan w2 (prepare-known metadata w h))
                  (λ required w3.
                    resume-succeeds (recover_desktop site metadata plan required w3)
                      (conclude site write metadata plan runner more required)
                      (recover_desktop-succeeds metadata plan required w3)
                      (λ rdc w4.
                        resume-succeeds
                          (write (summary site metadata plan runner more required rdc) w4)
                          (λ _. pure (summary site metadata plan runner more required rdc))
                          (writes (summary site metadata plan runner more required rdc) w4)
                          (λ _ _. refl))))))

  -- The runner was started, or found, by a start_runner that ended well.
  abbrev pub IsListening : String → Component → Type 0
  IsListening home component =
      (started : Started) × (component ≡ listening started)
      × Names site.host (((site.host).resolve ((site.host).resolve home))) started

  running-IsListening :
      (home log_path : String) (w : W) {component : Component} {w' : W}
      → guarded site "github_runner" (start site home log_path) w ≡ (ok component, w')
      → is_running site component ≡ true
      → IsListening home component
  unfolding component_failure
  running-IsListening home log_path w {component} {w'} e runs =
      go (start_runner site.host home log_path w) refl e
    where
      next : Started → Effect W Component
      next started = pure (listening started)

      go :
          (r : Result Started × W)
          → start_runner site.host home log_path w ≡ r
          → handle (resume r next) (λ exc. pure (component_failure site "github_runner" exc))
            ≡ (ok component, w')
          → IsListening home component
      go (ok started, v) same e = (
        started,
        sym (ok-injective (ap (λ (p : Result Component × W). p.0) e)),
        start_runner-Names site.host home log_path w same,
      )
      go (raised exc, v) same e =
          let failure : component_failure site "github_runner" exc ≡ component =
            ok-injective (ap (λ (p : Result Component × W). p.0) e) in
          let impossible : false ≡ true = ap (is_running site) failure ∙ runs in cc impossible

  -- What a state that says ok says.
  abbrev pub IsSound : String → String → CycleState → Type 0
  IsSound home script state =
      IsListening home state.github_runner
      × (state.rdc_required ≡ true → IsServed site script state.rdc)

  summary-IsSound :
      (metadata : Metadata) (plan : Plan) (runner : Component) (more : List Component)
      (required : Bool) (rdc : Component)
      → (is_running site runner ≡ true → IsListening plan.runner_home runner)
      → (is_served site rdc ≡ true → IsServed site (recovery_script site metadata) rdc)
      → (summary site metadata plan runner more required rdc).is_ok ≡ true
      → IsSound plan.runner_home
          (recovery_script site metadata)
          (summary site metadata plan runner more required rdc)
  unfolding summary
  summary-IsSound metadata plan runner more required rdc listens serves fine = (
    listens (go (is_running site runner) _ _ fine),
    λ r. serves (
        served (is_running site runner) (all (is_running site) more) required (is_served site rdc) r
          fine),
  )
    where
      go : (a b c : Bool) → ((a && b) && c) ≡ true → a ≡ true
      go a b c h = ground arith

      served : (a b c d : Bool) → c ≡ true → ((a && b) && (not c || d)) ≡ true → d ≡ true
      served a b c d e h = ground arith

  recover_all-IsSound :
      (write : CycleState → Effect W Unit) (metadata : Metadata) (plan : Plan) (w : W)
      {state : CycleState} {w' : W}
      → recover_all site write metadata plan w ≡ (ok state, w')
      → state.is_ok ≡ true
      → IsSound plan.runner_home (recovery_script site metadata) state
  unfolding recover_all
  recover_all-IsSound write metadata plan w {state} h well =
      let (runner, w1, e1, h1) =
        resume-eq-ok (recover_runner site metadata plan w) (after_runner site write metadata plan)
          h in
      let (more, w2, _, h2) =
        resume-eq-ok (start_additional site metadata plan.additional_home w1)
          (after_runners site write metadata plan runner) h1 in
      let (required, w3, _, h3) =
        resume-eq-ok (requires_rdc site plan w2)
          (serve_desktop site write metadata plan runner more) h2 in
      let (rdc, w4, e4, h4) =
        resume-eq-ok (recover_desktop site metadata plan required w3)
          (conclude site write metadata plan runner more required) h3 in
      let (_, w5, _, h5) =
        resume-eq-ok (write (summary site metadata plan runner more required rdc) w4)
          (λ _. pure (summary site metadata plan runner more required rdc)) h4 in
      let same : summary site metadata plan runner more required rdc ≡ state =
        ok-injective (ap (λ (p : Result CycleState × W). p.0) h5) in
      subst (IsSound plan.runner_home (recovery_script site metadata)) same (
        summary-IsSound metadata plan runner more required rdc
          (running-IsListening plan.runner_home
            ((site.host).join metadata.runtime_root "logs/github-runner.log") w e1)
          (recover_desktop-IsServed site metadata plan required w3 e4)
          (ap (λ (s : CycleState). s.is_ok) same ∙ well))

  prepare-home :
      (metadata : Metadata) (w : W) {plan : Plan} {w' : W}
      → prepare site metadata w ≡ (ok plan, w')
      → (site.host).resolve metadata.runner_home ≡ plan.runner_home
  unfolding prepare
  prepare-home metadata w {plan} h =
      let (host, w1, e1, h1) =
        resume-eq-ok (require_windows_desktop site w) (prepare_on site metadata) h in
      let (home, w2, e2, h2) =
        resume-eq-ok (validate_runner_home site.host metadata.runner_home w1)
          (prepare_home site metadata host) h1 in
      let (add, w3, _, h3) =
        resume-eq-ok
          (additional_orchestrator_runner_home site metadata.additional_runner_profiles w2)
          (prepare_additional site metadata host home) h2 in
      let (enabled, w4, _, h4) =
        resume-eq-ok (rdc_policy site metadata.rdc_recovery_enabled w3) (plan_of host home add)
          h3 in
      (validate_runner_home-same site.host metadata.runner_home w1 e2).0
      ∙ ap (λ (p : Plan). p.runner_home) (ok-injective (ap (λ (p : Result Plan × W). p.0) h4))
    where
      plan_of : String → String → Option String → Bool → Effect W Plan
      plan_of host home add enabled =
          pure (record {
            host = host;
            runner_home = home;
            additional_home = add;
            rdc_enabled = enabled;
          })

  -- A state that a cycle returns and that says ok names a process that runs the listener of the
  -- runner's home of the metadata, seen by the start_runner of this cycle. Where the remote desktop is
  -- required, either its claim file held a fresh claim, of at most twenty seconds, when it was read, or
  -- the recovery script of the release was run, ended with 0, and left evidence that says ok.
  pub cycle-IsSound :
      (write : CycleState → Effect W Unit) (metadata : Metadata) (w : W) {state : CycleState}
      {w' : W}
      → cycle site write metadata w ≡ (ok state, w')
      → state.is_ok ≡ true
      → IsSound ((site.host).resolve metadata.runner_home) (recovery_script site metadata) state
  unfolding cycle
  cycle-IsSound write metadata w {state} h well =
      let (plan, w1, e1, h1) =
        resume-eq-ok (prepare site metadata w) (recover_all site write metadata) h in
      subst (λ home. IsSound home (recovery_script site metadata) state)
        (sym (prepare-home metadata w e1)) (recover_all-IsSound write metadata plan w1 h1 well)
