-- ===== src/Watchdog/Cycle/Served.antt =====
-- What a desktop that a cycle calls healthy or recovered has shown.
use desktop_pc24x7_runtime.Prelude.{
  ◌≡◌, refl, sym, ap, ◌∙◌, String, Bool, true, false, eqb, ◌*◌, ◌⊎◌, inl, inr, if◌then◌else◌, arith,
}
use desktop_pc24x7_runtime.Result.{Result, ok, raised, ok-injective}
use desktop_pc24x7_runtime.Effect.{Effect, pure, handle, resume, reads, resume-eq-ok, ◌>>=◌}
use desktop_pc24x7_runtime.Json.{Json, get, is_true, truthy}
use desktop_pc24x7_runtime.Text.{second}
use desktop_pc24x7_runtime.Rdc.Claim.{Claim, read_claim}
use desktop_pc24x7_runtime.Watchdog.Site.{
  Site, Metadata, Evidence, absent, invalid, broken, found, Run,
}
use desktop_pc24x7_runtime.Watchdog.Cycle.{
  Component, failed, Plan, guarded, component_failure, is_served, recover_desktop, recovery_script,
  recover_rdc, read_evidence, judge_recovery, recover_unless_fresh, healthy, recovered,
}

module _ {W : Type 0} (site : Site W) where
  -- The claim file said, when it was read, that the headless owner had just been ready.
  abbrev pub IsFresh : Component → Type 0
  IsFresh component =
      (claim : Claim) × (w : W) × (component ≡ healthy claim)
      × (claim.fresh ≡ true)
      × (read_claim (site.host).python (20 * second) (site.now w) (site.claim_file w) ≡ ok claim)

  -- The script was run, ended with 0, and left evidence that says ok.
  abbrev pub IsRecovered : String → Component → Type 0
  IsRecovered script component =
      (before : W) × (after : W) × (completed : Run) × (value : Json) × (site.run_recovery script
          before
        ≡ (ok completed, after))
      × (eqb completed.returncode 0 ≡ true)
      × (site.evidence_file after ≡ found value)
      × (is_true (get "ok" value) ≡ true)
      × (component
          ≡ recovered (get "mode" value) (get "owner" value) (truthy (get "fallback_armed" value)))

  abbrev pub IsServed : String → Component → Type 0
  IsServed script component = IsFresh component ⊎ IsRecovered script component

  judge_recovery-ok :
      (completed : Run) (value : Json) (w : W) {component : Component} {w' : W}
      → judge_recovery site completed value w ≡ (ok component, w')
      → (eqb completed.returncode 0 ≡ true)
        × (is_true (get "ok" value) ≡ true)
        × (component
            ≡ recovered
                (get "mode" value)
                (get "owner" value)
                (truthy (get "fallback_armed" value)))
  judge_recovery-ok completed value w h = ground arith

  read_evidence-found :
      (evidence : Evidence) (w : W) {value : Json} {w' : W}
      → read_evidence site evidence w ≡ (ok value, w')
      → is_true (get "ok" value) ≡ true
      → (evidence ≡ found value) × (w ≡ w')
  unfolding get
  read_evidence-found absent w h e = ground arith
  read_evidence-found invalid w h e = ground arith
  read_evidence-found (broken exc) w h e = ground arith
  read_evidence-found (found json) w h e = ground arith

  recover_unless_fresh-IsServed :
      (script : String) (claim : Claim) (fresh : Bool) (w : W) {component : Component} {w' : W}
      → claim.fresh ≡ fresh
      → read_claim (site.host).python (20 * second) (site.now w) (site.claim_file w) ≡ ok claim
      → (if fresh then pure (healthy claim) else (do
        completed ← site.run_recovery script
        file ← reads site.evidence_file
        value ← read_evidence site file
        judge_recovery site completed value))
          w
        ≡ (ok component, w')
      → IsServed script component
  recover_unless_fresh-IsServed script claim true w e read h =
      inl (claim, w, sym (ok-injective (ap (λ (p : Result Component × W). p.0) h)), e, read)
  recover_unless_fresh-IsServed script claim false w e read h =
      let (completed, w1, ran, h1) =
        resume-eq-ok (site.run_recovery script w)
          (λ completed. reads site.evidence_file >>= λ file. judged completed file) h in
      let (value, w2, seen, h2) =
        resume-eq-ok (read_evidence site (site.evidence_file w1) w1) (judge_recovery site completed)
          h1 in
      let (exited, says, made) = judge_recovery-ok completed value w2 h2 in
      let (held, _) = read_evidence-found (site.evidence_file w1) w1 seen says in
      inr (w, w1, completed, value, ran, exited, held, says, made)
    where
      judged : Run → Evidence → Effect W Component
      judged completed file = do
        value ← read_evidence site file
        judge_recovery site completed value

  recover_rdc-IsServed :
      (script : String) (w : W) {component : Component} {w' : W}
      → recover_rdc site script w ≡ (ok component, w')
      → IsServed script component
  unfolding recover_rdc
  recover_rdc-IsServed script w h =
      go (read_claim (site.host).python (20 * second) (site.now w) (site.claim_file w)) refl h
    where
      go :
          {component : Component} {w' : W} (r : Result Claim)
          → read_claim (site.host).python (20 * second) (site.now w) (site.claim_file w) ≡ r
          → resume (r, w) (recover_unless_fresh site script) ≡ (ok component, w')
          → IsServed script component
      go (ok claim) e h = recover_unless_fresh-IsServed script claim claim.fresh w refl e h
      go (raised exc) e h =
          let impossible : ⊥ = cc (ap (λ (p : Result Component × W). p.0) h) in absurd impossible

  -- A required desktop that is called served is: no other way leads to that word.
  pub recover_desktop-IsServed :
      (metadata : Metadata) (plan : Plan) (required : Bool) (w : W) {component : Component} {w' : W}
      → recover_desktop site metadata plan required w ≡ (ok component, w')
      → is_served site component ≡ true
      → IsServed (recovery_script site metadata) component
  unfolding component_failure
  recover_desktop-IsServed metadata plan false w {component} h served =
      let other = ok-injective (ap (λ (p : Result Component × W). p.0) h) in
      let impossible : false ≡ true = ap (is_served site) other ∙ served in cc impossible
  recover_desktop-IsServed metadata plan true w {component} {w'} h served =
      go ((site.host).is_file script w) h
    where
      script : String
      script = recovery_script site metadata

      tried :
          (r : Result Component × W)
          → recover_rdc site script w ≡ r
          → handle r (λ exc. pure (component_failure site "rdc" exc)) ≡ (ok component, w')
          → IsServed script component
      tried (ok c, v) e h = recover_rdc-IsServed script w (e ∙ h)
      tried (raised exc, v) e h =
          let other : component_failure site "rdc" exc ≡ component =
            ok-injective (ap (λ (p : Result Component × W). p.0) h) in
          let impossible : false ≡ true = ap (is_served site) other ∙ served in cc impossible

      go :
          (there : Bool)
          → (if there
              then guarded site "rdc" (recover_rdc site script) w
              else (ok (failed "rdc" "rdc_recovery_script_missing"), w))
            ≡ (ok component, w')
          → IsServed script component
      go true h = tried (recover_rdc site script w) refl h
      go false h =
          let other : failed "rdc" "rdc_recovery_script_missing" ≡ component =
            ok-injective (ap (λ (p : Result Component × W). p.0) h) in
          let impossible : false ≡ true = ap (is_served site) other ∙ served in cc impossible
