-- ===== src/Rdc/Proven.antt =====
-- What `recover` has done, once it says who owns the remote desktop.
use desktop_pc24x7_runtime.Prelude.{
  ◌≡◌, refl, sym, ap, subst, ◌∙◌, Bool, true, false, some, List, [], ◌∷◌, ◌++◌, String, ◌==◌, any,
  eqb, arith, eq_iff, inl, inr, if◌then◌else◌, Bool-cases, Option-cases,
}
use desktop_pc24x7_runtime.Result.{Result, ok, ok-injective, recovery_error}
use desktop_pc24x7_runtime.Effect.{Effect, pure, fail, reads, ◌>>=◌, resume-eq-ok, resume}
use desktop_pc24x7_runtime.Rdc.Recover.{
  restart_task, task_interactive, Restart, task_available, start_interactive, interactive_restart,
  Machine, Source, Payload, Headless, Interactive, Attempt, owner_of, conclude, fall_back,
  recover_from, headless_at, interactive_at, recover, recover_headless, recover_interactive,
  validate_host, confirm_text, transport_marker, is_guarded, payload_of,
}
use desktop_pc24x7_runtime.Rdc.Ownership.{admits, recover-refuses}
use desktop_pc24x7_runtime.Rdc.Headless.{
  IsRun, restart_task-IsRun, IsAwaited, IsProven, recover_headless-ready,
}

-- A start of the interactive launcher that schtasks took.
abbrev pub is_start : Attempt → Bool
is_start (interactive_restart restart) = eqb restart.run_returncode 0
is_start _ = false

any-append : (xs ys : List Attempt) → any is_start ys ≡ true → any is_start (xs ++ ys) ≡ true
any-append [] ys h = h
any-append (x ∷ xs) ys h = ground (arith, any-append xs ys h)

module _ {W : Type 0} (machine : Machine W) where
  start_interactive-IsRun :
      (available : Bool) (w w' : W) {i : Interactive}
      → start_interactive machine available w ≡ (ok i, w')
      → i.started ≡ true
      → (any is_start i.attempts ≡ true) × IsRun machine task_interactive w'
  start_interactive-IsRun false w w' e s = ground arith
  start_interactive-IsRun true w w' {i} e s =
      let (restart, v, f, e') =
        resume-eq-ok (restart_task machine task_interactive w) (λ r. pure (begun r)) e in
      let same : begun restart ≡ i = ok-injective (ap (λ (p : Result Interactive × W). p.0) e') in
      let there : v ≡ w' = ap (λ (p : Result Interactive × W). p.1) e' in
      let code : eqb restart.run_returncode 0 ≡ true =
        ap (λ (x : Interactive). x.started) same ∙ s in
      (
        subst (λ (x : Interactive). any is_start x.attempts ≡ true) same (rw code refl),
        subst (IsRun machine task_interactive) there
            (restart_task-IsRun machine task_interactive w v f code),
      )
    where
      begun : Restart → Interactive
      begun restart = record {
        attempts = interactive_restart restart ∷ [];
        started = eqb restart.run_returncode 0;
      }

  recover_interactive-started :
      (source : Source) (w : W) {i : Interactive} {w' : W}
      → recover_interactive machine source w ≡ (ok i, w')
      → i.started ≡ true
      → (source.governed ≡ true)
        × (any is_start i.attempts ≡ true)
        × IsRun machine task_interactive w'
  unfolding recover_interactive
  recover_interactive-started source w {i} {w'} e s = go source.governed refl e
    where
      never : start_interactive machine false w ≡ (ok i, w') → ⊥
      never e = ground arith

      go :
          (governed : Bool)
          → source.governed ≡ governed
          → (if governed
                then (do
                  available ← task_available machine task_interactive
                  start_interactive machine available)
                else start_interactive machine false)
              w
            ≡ (ok i, w')
          → (source.governed ≡ true)
            × (any is_start i.attempts ≡ true)
            × IsRun machine task_interactive w'
      go true f e =
          let (available, v, _, e') =
            resume-eq-ok (task_available machine task_interactive w) (start_interactive machine)
              e in
          let (counted, ran) = start_interactive-IsRun available v w' e' s in (f, counted, ran)
      go false f e = absurd (never e)

  is_guarded-marker :
      (source : Source) → is_guarded machine source ≡ true → source.marker ≡ some transport_marker
  is_guarded-marker source h = elim (Option-cases source.marker) [
    | inl e ↦ ground arith
    | inr (m, e) ↦ ground (arith, eq_iff m transport_marker)
  ]

  owner-headless : (b : Bool) → owner_of machine b ≡ "headless" → b ≡ true
  owner-headless true h = refl
  owner-headless false h =
      let impossible : false ≡ true = ap (λ s. s == "headless") h in cc impossible

  abbrev pub IsTrue : Payload → W → Type 0
  IsTrue payload after =
      (payload.interactive_source.governed ≡ true)
      × (any is_start payload.attempts ≡ true)
      × IsRun machine task_interactive after
      × (payload.owner ≡ "headless"
          → (payload.headless_source.governed ≡ true)
            × (payload.headless_source.marker ≡ some transport_marker)
            × (payload.headless_claim.fresh ≡ true)
            × IsAwaited machine payload.headless_claim)

  payload_of-IsTrue :
      (source launcher : Source) (h : Headless) (i : Interactive) (w : W)
      → IsProven machine source h
      → (launcher.governed ≡ true)
        × (any is_start i.attempts ≡ true)
        × IsRun machine task_interactive w
      → IsTrue (payload_of machine source launcher h i) w
  payload_of-IsTrue source launcher h i w proven (governed, started, ran) = (
    governed,
    any-append h.attempts i.attempts started,
    ran,
    λ owner.
        let (a, b, c, d) = proven (owner-headless h.ready owner) in
        (a, is_guarded-marker source b, c, d),
  )

  conclude-IsTrue :
      (source launcher : Source) (h : Headless) (i : Interactive) (w : W) {payload : Payload}
      {w' : W}
      → IsProven machine source h
      → (i.started ≡ true
          → (launcher.governed ≡ true)
            × (any is_start i.attempts ≡ true)
            × IsRun machine task_interactive w)
      → conclude machine source launcher h i w ≡ (ok payload, w')
      → IsTrue payload w'
  conclude-IsTrue source launcher h i w {payload} {w'} proven started e = go i.started refl e
    where
      go :
          (start : Bool)
          → i.started ≡ start
          → (if start
                then pure (payload_of machine source launcher h i)
                else fail recovery_error "nenhuma tarefa RDC governada pôde ser iniciada")
              w
            ≡ (ok payload, w')
          → IsTrue payload w'
      go true s e =
          let same : payload_of machine source launcher h i ≡ payload =
            ok-injective (ap (λ (p : Result Payload × W). p.0) e) in
          let there : w ≡ w' = ap (λ (p : Result Payload × W). p.1) e in
          subst (IsTrue payload) there (
            subst (λ p. IsTrue p w) same
              (payload_of-IsTrue source launcher h i w proven (started s)))
      go false s e =
          let impossible : ⊥ = cc (ap (λ (p : Result Payload × W). p.0) e) in absurd impossible

  recover-admitted :
      (confirm : String) (w : W)
      → admits machine confirm ≡ true
      → recover machine confirm w
        ≡ recover_from machine (headless_at machine w) (interactive_at machine w) w
  unfolding recover validate_host
  recover-admitted confirm w h =
      let asked : (confirm == confirm_text) ≡ true = ground arith in
      let hosted : validate_host machine w ≡ (ok machine.hostname, w) = ground arith in
      rw asked (ap (λ r. resume r rest) hosted)
    where
      rest : String → Effect W Payload
      rest _ = do
        headless ← reads (headless_at machine)
        interactive ← reads (interactive_at machine)
        recover_from machine headless interactive

  recover_from-IsTrue :
      (source launcher : Source) (w : W) {payload : Payload} {w' : W}
      → recover_from machine source launcher w ≡ (ok payload, w')
      → IsTrue payload w'
  unfolding recover_from
  recover_from-IsTrue source launcher w h =
      let (h', w3, e3, h3) =
        resume-eq-ok (recover_headless machine source (is_guarded machine source) w)
          (fall_back machine source launcher) h in
      let (i, w4, e4, h4) =
        resume-eq-ok (recover_interactive machine launcher w3) (conclude machine source launcher h')
          h3 in
      conclude-IsTrue source launcher h' i w4 (recover_headless-ready machine source w e3)
        (recover_interactive-started launcher w3 e4) h4

  -- A payload of `recover` was earned: the host is the expected one, the interactive launcher is
  -- governed, an attempt in the payload says that its start returned 0, and the last call made was
  -- schtasks /Run of the interactive task, which returned 0. The owner is called headless only if the
  -- headless runner is governed and bears the transport marker, schtasks /Run of its task had returned
  -- 0, and the wait from there ended with a fresh claim, the one that the claim file then held.
  pub recover-proves :
      (confirm : String) (w : W) {payload : Payload} {w' : W}
      → recover machine confirm w ≡ (ok payload, w')
      → (admits machine confirm ≡ true) × IsTrue payload w'
  recover-proves confirm w h = elim (Bool-cases (admits machine confirm)) [
    | inr refused ↦
        let impossible : ⊥ = ground (arith, recover-refuses machine confirm w refused, h) in
        absurd impossible
    | inl admitted ↦ (
      admitted,
      recover_from-IsTrue (headless_at machine w) (interactive_at machine w) w
          (sym (recover-admitted confirm w admitted) ∙ h),
    )
  ]
