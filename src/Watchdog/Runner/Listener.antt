-- ===== src/Watchdog/Runner/Listener.antt =====
-- Whose process `start_runner` names, and what `stop_runner` leaves.
use desktop_pc24x7_runtime.Prelude.{
  ℕ, zero, suc, ◌+◌, ◌*◌, ◌≡◌, refl, sym, ap, ◌∙◌, subst, Bool, true, false, Option, none, some,
  List, [], ◌∷◌, String, ◌==◌, all, All, ltb, if◌then◌else◌, inl, inr, Bool-cases, Option-cases,
}
use desktop_pc24x7_runtime.Result.{ExceptionClass, Result, ok-injective, ok, raised, watchdog_error}
use desktop_pc24x7_runtime.Effect.{Effect, fail, resume-eq-ok, ◌>>=◌}
use desktop_pc24x7_runtime.Text.{second}
use desktop_pc24x7_runtime.Watchdog.Host.{Host}
use desktop_pc24x7_runtime.Watchdog.Runner.{
  Snapshot, Started, sort_pid, sort_pids, expected_listener, runner_process_snapshot,
  await_listener, start_runner, launch, listeners, start_or_keep, look_again, none_of,
  is_unverifiable, or_none, recovered, runner_required, validate_runner_home, on_snapshot,
  inspect_runner_version, judge_pids, judge_snapshot, snapshot_at, start_fuel,
}

gate-same :
    {W : Type 0} {w : W} (class : ExceptionClass) (message : String) (test : Bool) (x : String)
    {y : String} {w' : W}
    → (if test then (ok x, w) else fail class message w) ≡ (ok y, w')
    → (x ≡ y) × (w ≡ w')
gate-same class message true x h =
    (ok-injective (ap (λ (p : Result String × _). p.0) h), ap (λ (p : Result String × _). p.1) h)
gate-same class message false x h =
    let impossible : ⊥ = cc (ap (λ (p : Result String × _). p.0) h) in absurd impossible

module _ {W : Type 0} (host : Host W) where
  -- The process runs the listener of this home.
  abbrev pub Owns : String → W → ℕ → Type 0
  Owns expected w pid =
      (path : String) × (host.executable pid w ≡ some path)
      × ((host.normcase path == host.normcase expected) ≡ true)

  matched-Owns :
      (expected : String) (w : W) (pid : ℕ) (path : String) (rest : List ℕ)
      → host.executable pid w ≡ some path
      → All (Owns expected w) rest
      → All
          (Owns expected w)
          (if host.normcase path == host.normcase expected then pid ∷ rest else rest)
  matched-Owns expected w pid path rest e owned =
      elim (Bool-cases (host.normcase path == host.normcase expected)) [
        | inl m ↦ rw m ((path, e, m), owned)
        | inr m ↦ rw m owned
      ]

  sort_pids-Owns :
      (expected : String) (w : W) (pids : List ℕ)
      → All (Owns expected w) (sort_pids host expected w pids).matching_pids
  unfolding sort_pids
  sort_pids-Owns expected w [] = tt
  sort_pids-Owns expected w (pid ∷ pids) = elim (Option-cases (host.executable pid w)) [
    | inl e ↦
        subst
          (λ path.
            All (Owns expected w)
              (sort_pid host expected pid path (sort_pids host expected w pids)).matching_pids)
          (sym e) (sort_pids-Owns expected w pids)
    | inr (path, e) ↦
        subst
          (λ p.
            All (Owns expected w)
              (sort_pid host expected pid p (sort_pids host expected w pids)).matching_pids)
          (sym e) (matched-Owns expected w pid path _ e (sort_pids-Owns expected w pids))
  ]

  judge_snapshot-same :
      (found : Snapshot) {snapshot : Snapshot}
      → judge_snapshot host found ≡ ok snapshot
      → found ≡ snapshot
  judge_snapshot-same found h = go found.matching_pids found.unresolved_pids h
    where
      go :
          {s : Snapshot} (matching unresolved : List ℕ)
          → judge_pids host matching unresolved found ≡ ok s
          → found ≡ s
      go (_ ∷ _ ∷ _) _ h = cc
      go [] (_ ∷ _) h = cc
      go [] [] h = ok-injective h
      go (_ ∷ []) _ h = ok-injective h

  snapshot_at-Owns :
      (home : String) (w : W) (pids : Result (List ℕ)) {snapshot : Snapshot}
      → snapshot_at host home w pids ≡ ok snapshot
      → All (Owns (expected_listener host home) w) snapshot.matching_pids
  snapshot_at-Owns home w (ok pids) h =
      subst (λ (s : Snapshot). All (Owns (expected_listener host home) w) s.matching_pids)
        (judge_snapshot-same (sort_pids host (expected_listener host home) w pids) h)
        (sort_pids-Owns (expected_listener host home) w pids)
  snapshot_at-Owns home w (raised exc) h = cc

  pub validate_runner_home-same :
      (home : String) (w : W) {home' : String} {w' : W}
      → validate_runner_home host home w ≡ (ok home', w')
      → (host.resolve home ≡ home') × (w ≡ w')
  unfolding validate_runner_home
  validate_runner_home-same home w h =
      gate-same watchdog_error _
        (all (λ parts. host.is_file (host.join (host.resolve home) parts) w) (runner_required host))
        (host.resolve home) h

  -- The listeners that a snapshot finds are the home's own.
  runner_process_snapshot-Owns :
      (home : String) (w : W) {snapshot : Snapshot} {w' : W}
      → runner_process_snapshot host home w ≡ (ok snapshot, w')
      → All (Owns (expected_listener host (host.resolve home)) w) snapshot.matching_pids × (w ≡ w')
  unfolding runner_process_snapshot
  runner_process_snapshot-Owns home w {snapshot} {w'} h =
      let (home', w1, e1, h1) =
        resume-eq-ok (validate_runner_home host home w)
          (λ home' w. (snapshot_at host home' w (host.process_ids w), w)) h in
      let (r, same) = validate_runner_home-same home w e1 in
      (
        subst
            (λ v. All (Owns (expected_listener host (host.resolve home)) v) snapshot.matching_pids)
            (sym same)
            (subst (λ r. All (Owns (expected_listener host r) w1) snapshot.matching_pids) (sym r)
              (snapshot_at-Owns home' w1 (host.process_ids w1)
                (ap (λ (p : Result Snapshot × W). p.0) h1))),
        same ∙ ap (λ (p : Result Snapshot × W). p.1) h1,
      )

  -- The process that a result names runs this home's listener, in some state.
  abbrev pub Names : String → Started → Type 0
  Names home started = (w : W) × Owns (expected_listener host home) w started.listener_pid

  on_snapshot-Names :
      (home : String) (w v : W) (again : Effect W Started) (launcher : ℕ) (version : String)
      (exit : Option ℕ) (pids : List ℕ) {started : Started} {w' : W}
      → All (Owns (expected_listener host home) v) pids
      → (again w ≡ (ok started, w') → Names home started)
      → on_snapshot host again (recovered host launcher version) exit pids w ≡ (ok started, w')
      → Names home started
  on_snapshot-Names home w v again launcher version exit (pid ∷ _) (owned, _) next h =
      subst (Names home) (ok-injective (ap (λ (p : Result Started × W). p.0) h)) (v, owned)
  on_snapshot-Names home w v again launcher version (some exit) [] _ next h =
      let impossible : ⊥ = cc (ap (λ (p : Result Started × W). p.0) h) in absurd impossible
  on_snapshot-Names home w v again launcher version none [] _ next h = next h

  look_again-Names :
      (home : String) (w : W) (look : Effect W Started) (test : Bool) {started : Started} {w' : W}
      → (look w ≡ (ok started, w') → Names home started)
      → look_again host look test w ≡ (ok started, w')
      → Names home started
  look_again-Names home w look true next h = next h
  look_again-Names home w look false next h =
      let impossible : ⊥ = cc (ap (λ (p : Result Started × W). p.0) h) in absurd impossible

  await_listener-Names :
      (fuel : ℕ) (home : String) (deadline launcher : ℕ) (version : String) (w : W)
      {started : Started} {w' : W}
      → await_listener host fuel home deadline launcher version w ≡ (ok started, w')
      → Names (host.resolve home) started
  unfolding await_listener
  await_listener-Names zero home deadline launcher version w h =
      let impossible : ⊥ = cc (ap (λ (p : Result Started × W). p.0) h) in absurd impossible
  await_listener-Names (suc fuel) home deadline launcher version w {started} {w'} h =
      look_again-Names (host.resolve home) w look (ltb (host.monotonic w) deadline)
        (λ looked.
          let (snapshot, w1, e1, h1) =
            resume-eq-ok (runner_process_snapshot host home w) next looked in
          on_snapshot-Names (host.resolve home) w1 w again launcher version (host.poll launcher w1)
            snapshot.matching_pids (runner_process_snapshot-Owns home w e1).0
            (await_listener-Names fuel home deadline launcher version (host.sleep second w1)) h1)
        h
    where
      again : Effect W Started
      again w = await_listener host fuel home deadline launcher version (host.sleep second w)

      next : Snapshot → Effect W Started
      next current w =
          on_snapshot host again (recovered host launcher version) (host.poll launcher w)
            current.matching_pids w

      look : Effect W Started
      look = do current ← runner_process_snapshot host home; next current

  or_none-Owns :
      (home : String) (v w : W) (r : Result Snapshot) {pids : List ℕ} {w' : W}
      → ((snapshot : Snapshot) → r ≡ ok snapshot → All (Owns home v) snapshot.matching_pids)
      → or_none host r w ≡ (ok pids, w')
      → All (Owns home v) pids
  or_none-Owns home v w (ok snapshot) owned h =
      subst (All (Owns home v)) (ok-injective (ap (λ (p : Result (List ℕ) × W). p.0) h))
        (owned snapshot refl)
  or_none-Owns home v w (raised exc) owned h =
      subst (All (Owns home v))
        (go (is_unverifiable host exc) (host.process_ids w)
          (ap (λ (p : Result (List ℕ) × W). p.0) h))
        tt
    where
      go :
          {pids : List ℕ} (test : Bool) (r : Result (List ℕ))
          → (if test then none_of host r else raised exc) ≡ ok pids
          → [] ≡ pids
      go true (ok _) h = ok-injective h
      go true (raised _) h = cc
      go false r h = cc

  start_or_keep-Names :
      (home log_path version : String) (v w : W) (pids : List ℕ) {started : Started} {w' : W}
      → All (Owns (expected_listener host (host.resolve home)) v) pids
      → start_or_keep host home log_path version pids w ≡ (ok started, w')
      → Names (host.resolve home) started
  unfolding launch
  start_or_keep-Names home log_path version v w (pid ∷ _) (owned, _) h =
      subst (Names (host.resolve home)) (ok-injective (ap (λ (p : Result Started × W). p.0) h))
        (v, owned)
  start_or_keep-Names home log_path version v w [] _ h =
      let (launcher, w1, _, h1) = resume-eq-ok (launch host home log_path w) await h in
      await_listener-Names (start_fuel host) home (host.monotonic w1 + 30 * second) launcher version
        w1 h1
    where
      await : ℕ → Effect W Started
      await launcher w =
          await_listener host (start_fuel host) home (host.monotonic w + 30 * second) launcher
            version w

  listeners-Owns :
      (home : String) (w : W) {pids : List ℕ} {w' : W}
      → listeners host home w ≡ (ok pids, w')
      → All (Owns (expected_listener host (host.resolve home)) w) pids
  unfolding listeners
  listeners-Owns home w h =
      let snapshot = runner_process_snapshot host home w in
      or_none-Owns (expected_listener host (host.resolve home)) w snapshot.1 snapshot.0
        (λ s e. (runner_process_snapshot-Owns home w (pair e)).0) h
    where
      pair :
          {s : Snapshot}
          → (runner_process_snapshot host home w).0 ≡ ok s
          → runner_process_snapshot host home w ≡ (ok s, (runner_process_snapshot host home w).1)
      pair e = ap (λ r. (r, (runner_process_snapshot host home w).1)) e

  -- Whenever start_runner ends well, whether it started the runner or found it running, the process
  -- that it names was seen, in some state, to run the listener of that runner's home, and of no other.
  pub start_runner-Names :
      (runner_home log_path : String) (w : W) {started : Started} {w' : W}
      → start_runner host runner_home log_path w ≡ (ok started, w')
      → Names (host.resolve (host.resolve runner_home)) started
  unfolding start_runner
  start_runner-Names runner_home log_path w {started} h =
      let (home, w1, e1, h1) =
        resume-eq-ok (validate_runner_home host runner_home w) after_home h in
      let (version, w2, _, h2) =
        resume-eq-ok (inspect_runner_version host home w1) (after_version home) h1 in
      let (pids, w3, e3, h3) =
        resume-eq-ok (listeners host home w2) (start_or_keep host home log_path version) h2 in
      subst (λ r. Names (host.resolve r) started)
        (sym (validate_runner_home-same runner_home w e1).0)
        (start_or_keep-Names home log_path version w2 w3 pids (listeners-Owns home w2 e3) h3)
    where
      after_version : String → String → Effect W Started
      after_version home version = do
        pids ← listeners host home
        start_or_keep host home log_path version pids

      after_home : String → Effect W Started
      after_home home = do version ← inspect_runner_version host home; after_version home version
