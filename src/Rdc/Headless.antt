-- ===== src/Rdc/Headless.antt =====
-- A headless owner that `recover` calls ready: its task was run, and its fresh claim awaited.
use desktop_pc24x7_runtime.Prelude.{
  ℕ, zero, suc, ◌+◌, ◌*◌, ◌≡◌, refl, sym, ap, subst, ◌∙◌, Bool, true, false, not, ◌&&◌, some, none,
  [], ◌∷◌, String, eqb, ltb, arith, contains, if◌then◌else◌,
}
use desktop_pc24x7_runtime.Result.{Result, ok, ok-injective, recovery_error}
use desktop_pc24x7_runtime.Effect.{Effect, pure, fail_if, ◌>>=◌, resume-eq-ok, resume}
use desktop_pc24x7_runtime.Text.{second}
use desktop_pc24x7_runtime.Rdc.Claim.{Claim, read_claim, unfresh}
use desktop_pc24x7_runtime.Rdc.Recover.{
  Verb, headless_restart, run, task_command, restart_task, task_headless, task_interactive, Restart,
  task_available, when_available, restarted, Machine, Source, Headless, recover_headless,
  wait_for_headless_ready, poll_claim, read_headless_claim, is_guarded,
}

module _ {W : Type 0} (machine : Machine W) where
  task_command-called :
      (verb : Verb) (task : String) (w w' : W) {code : ℕ}
      → task_command machine verb task w ≡ (ok code, w')
      → machine.schtasks verb task w ≡ (ok code, w')
  unfolding task_command
  task_command-called verb task w w' {code} h =
      go (contains (task_headless ∷ task_interactive ∷ []) task) h
    where
      go :
          (known : Bool)
          → resume
              (fail_if (not known) recovery_error "task_name não allowlisted" w)
              (λ _. machine.schtasks verb task)
            ≡ (ok code, w')
          → machine.schtasks verb task w ≡ (ok code, w')
      go true h = h
      go false h = let impossible : ⊥ = cc (ap (λ (p : Result ℕ × W). p.0) h) in absurd impossible

  -- A restart whose run returned 0: the last call was schtasks /Run of the task, and it returned 0.
  abbrev pub IsRun : String → W → Type 0
  IsRun task after = (before : W) × (machine.schtasks run task before ≡ (ok 0, after))

  pub restart_task-IsRun :
      (task : String) (w w' : W) {restart : Restart}
      → restart_task machine task w ≡ (ok restart, w')
      → eqb restart.run_returncode 0 ≡ true
      → IsRun task w'
  unfolding restart_task
  restart_task-IsRun task w w' {restart} h zero_code =
      let (end_code, w1, _, h1) = resume-eq-ok (task_command machine Verb.end task w) run_then h in
      let (run_code, w2, e2, h2) =
        resume-eq-ok (task_command machine run task w1)
          (λ code. pure (record { end_returncode = end_code; run_returncode = code })) h1 in
      let same : run_code ≡ restart.run_returncode =
        ap (λ (r : Restart). r.run_returncode)
          (ok-injective (ap (λ (p : Result Restart × W). p.0) h2)) in
      let is_zero : run_code ≡ 0 = ground arith in
      let there : w2 ≡ w' = ap (λ (p : Result Restart × W). p.1) h2 in
      let called = task_command-called run task w1 w2 e2 in (w1, called ∙ pair is_zero there)
    where
      Reply : Type 0
      Reply = Result ℕ × W

      reply : ℕ → W → Reply
      reply a u = (ok a, u)

      pair : {a b : ℕ} {u v : W} → a ≡ b → u ≡ v → reply a u ≡ reply b v
      pair e f = cc

      run_then : ℕ → Effect W Restart
      run_then end_code = do
        run_code ← task_command machine run task
        pure (record { end_returncode = end_code; run_returncode = run_code })

  -- The headless task was run, the wait from there returned the claim, and the claim file said so
  -- when it was last read.
  abbrev pub IsAwaited : Claim → Type 0
  IsAwaited claim =
      (begun : W) × (ended : W) × (IsRun task_headless begun)
      × (wait_for_headless_ready machine begun ≡ (ok claim, ended))
      × (read_claim machine.python (8 * second) (machine.now ended) (machine.claim_file ended)
          ≡ ok claim)

  -- The loop returns the claim that it read last, in the state that it ends in.
  poll_claim-read :
      (fuel deadline : ℕ) (last : Claim) (w w' : W) {claim : Claim}
      → read_headless_claim machine w ≡ (ok last, w)
      → poll_claim machine fuel deadline last w ≡ (ok claim, w')
      → read_headless_claim machine w' ≡ (ok claim, w')
  unfolding poll_claim read_headless_claim
  poll_claim-read zero deadline last w w' e h =
      let impossible : ⊥ = cc (ap (λ (p : Result Claim × W). p.0) h) in absurd impossible
  poll_claim-read (suc fuel) deadline last w w' {claim} e h =
      go (λ last' v. poll_claim-read fuel deadline last' v w')
        (not last.fresh && ltb (machine.monotonic w) deadline) h
    where
      later : W
      later = machine.sleep 500000 w

      go :
          ((last' : Claim) (v : W)
            → read_headless_claim machine v ≡ (ok last', v)
            → poll_claim machine fuel deadline last' v ≡ (ok claim, w')
            → read_headless_claim machine w' ≡ (ok claim, w'))
          → (on : Bool)
          → (elim on as (λ k. Result Claim × W) [
            | true ↦
                (do last' ← read_headless_claim machine; poll_claim machine fuel deadline last')
                  later
            | false ↦ (ok last, w)
          ])
            ≡ (ok claim, w')
          → read_headless_claim machine w' ≡ (ok claim, w')
      go more false h = subst (λ (p : Result Claim × W). read_headless_claim machine p.1 ≡ p) h e
      go more true h =
          let (last', v, f, h') =
            resume-eq-ok (read_headless_claim machine later) (poll_claim machine fuel deadline) h in
          let here : later ≡ v = ap (λ (p : Result Claim × W). p.1) f in
          more last' later (f ∙ ap (λ u. (ok last', u)) (sym here))
            (ap (λ u. poll_claim machine fuel deadline last' u) here ∙ h')

  wait_for_headless_ready-read :
      (w w' : W) {claim : Claim}
      → wait_for_headless_ready machine w ≡ (ok claim, w')
      → read_claim machine.python (8 * second) (machine.now w') (machine.claim_file w') ≡ ok claim
  unfolding wait_for_headless_ready read_headless_claim
  wait_for_headless_ready-read w w' h =
      let (first, v, e, h') =
        resume-eq-ok (read_headless_claim machine w)
          (poll_claim machine 26 (machine.monotonic w + 12 * second)) h in
      let here : w ≡ v = ap (λ (p : Result Claim × W). p.1) e in
      ap (λ (p : Result Claim × W). p.0)
        (poll_claim-read 26 (machine.monotonic w + 12 * second) first w w'
          (e ∙ ap (λ u. (ok first, u)) (sym here))
          (ap (λ u. poll_claim machine 26 (machine.monotonic w + 12 * second) first u) here ∙ h'))

  restarted-IsAwaited :
      (restart : Restart) (w w' : W) {h : Headless}
      → (eqb restart.run_returncode 0 ≡ true → IsRun task_headless w)
      → restarted machine restart w ≡ (ok h, w')
      → h.ready ≡ true
      → (h.claim.fresh ≡ true) × IsAwaited h.claim
  restarted-IsAwaited restart w w' {h} runs e ready = go (eqb restart.run_returncode 0) refl e
    where
      waited : Claim → Headless
      waited claim = record {
        attempts = headless_restart restart (some claim) ∷ [];
        ready = claim.fresh;
        claim = claim;
      }

      refused : Headless
      refused = record {
        attempts = headless_restart restart none ∷ [];
        ready = false;
        claim = unfresh "not_attempted";
      }

      go :
          (took : Bool)
          → eqb restart.run_returncode 0 ≡ took
          → (if took
                then (do claim ← wait_for_headless_ready machine; pure (waited claim))
                else pure refused)
              w
            ≡ (ok h, w')
          → (h.claim.fresh ≡ true) × IsAwaited h.claim
      go true f e =
          let (claim, v, g, e') =
            resume-eq-ok (wait_for_headless_ready machine w) (λ claim. pure (waited claim)) e in
          let same : waited claim ≡ h = ok-injective (ap (λ (p : Result Headless × W). p.0) e') in
          let fresh : claim.fresh ≡ true = ap (λ (x : Headless). x.ready) same ∙ ready in
          subst (λ (x : Headless). (x.claim.fresh ≡ true) × IsAwaited x.claim) same
            (fresh, (w, v, runs f, g, wait_for_headless_ready-read w v g))
      go false f e =
          let same : refused ≡ h = ok-injective (ap (λ (p : Result Headless × W). p.0) e) in
          let impossible : false ≡ true = ap (λ (x : Headless). x.ready) same ∙ ready in
          cc impossible

  abbrev pub IsProven : Source → Headless → Type 0
  IsProven source h =
      h.ready ≡ true
      → (source.governed ≡ true)
        × (is_guarded machine source ≡ true)
        × (h.claim.fresh ≡ true)
        × IsAwaited h.claim

  when_available-IsAwaited :
      (guarded available : Bool) (w w' : W) {h : Headless}
      → when_available machine guarded available w ≡ (ok h, w')
      → h.ready ≡ true
      → (guarded ≡ true) × (h.claim.fresh ≡ true) × IsAwaited h.claim
  when_available-IsAwaited guarded false w w' e ready = ground arith
  when_available-IsAwaited false true w w' e ready = ground arith
  when_available-IsAwaited true true w w' e ready =
      let (restart, v, f, e') =
        resume-eq-ok (restart_task machine task_headless w) (restarted machine) e in
      let (fresh, awaited) =
        restarted-IsAwaited restart v w' (λ z. restart_task-IsRun task_headless w v f z) e' ready in
      (refl, fresh, awaited)

  pub recover_headless-ready :
      (source : Source) (w : W) {h : Headless} {w' : W}
      → recover_headless machine source (is_guarded machine source) w ≡ (ok h, w')
      → IsProven source h
  unfolding recover_headless
  recover_headless-ready source w {h} {w'} e ready = go source.governed refl e
    where
      never : when_available machine (is_guarded machine source) false w ≡ (ok h, w') → ⊥
      never e = ground arith

      go :
          (governed : Bool)
          → source.governed ≡ governed
          → (if governed
                then (do
                  available ← task_available machine task_headless
                  when_available machine (is_guarded machine source) available)
                else when_available machine (is_guarded machine source) false)
              w
            ≡ (ok h, w')
          → (source.governed ≡ true)
            × (is_guarded machine source ≡ true)
            × (h.claim.fresh ≡ true)
            × IsAwaited h.claim
      go true f e =
          let (available, v, _, e') =
            resume-eq-ok (task_available machine task_headless w)
              (when_available machine (is_guarded machine source)) e in
          let (guarded, fresh, awaited) =
            when_available-IsAwaited (is_guarded machine source) available v w' e' ready in
          (f, guarded, fresh, awaited)
      go false f e = absurd (never e)
