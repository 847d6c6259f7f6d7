-- ===== src/Broker/Actions/Dispatch.antt =====
-- That the dispatch knows the actions of the commands, and that a check of Windows is made once.
use desktop_pc24x7_runtime.Prelude.{
  ℕ, ◌≡◌, refl, ap, subst, ◌∙◌, Option, none, some, String, ◌==◌, Bool, true, false, ◌&&◌, any,
  if◌then◌else◌, arith, eq_refl,
}
use desktop_pc24x7_runtime.Json.{Json, is_dict, get}
use desktop_pc24x7_runtime.Result.{broker_error, other_error, Result, ok}
use desktop_pc24x7_runtime.Effect.{Effect, pure, fail, resume-eq-ok}
use desktop_pc24x7_runtime.Broker.Comment.{allowed_commands}
use desktop_pc24x7_runtime.Broker.Actions.{Services, File, absent, unreadable, holds}
use desktop_pc24x7_runtime.Broker.Actions.Execute.{
  handler_of, windows_component_health, reuse_or_check, check_on_windows, check, scan, verify_files,
  write_all, is_completed, health_report, health_payload,
}

module _ {W : Type 0} (services : Services W) where
  abbrev pub has_handler : Option (Effect W Json) → Bool
  has_handler none = false
  has_handler (some _) = true

  -- execute_action has a handler for exactly the actions of the table of commands that
  -- authorize_comment looks up.
  pub handler_of-allowed :
      (action correlation_id : String)
      → has_handler (handler_of services action correlation_id)
        ≡ any (λ (command : String × String). action == command.1) allowed_commands
  unfolding handler_of
  handler_of-allowed action correlation_id = ground arith

  -- The evidence that the run `w` has ended with is complete.
  abbrev pub IsKept : String → W → Type 0
  IsKept correlation_id w =
      (payload : Json) × (services.health_evidence correlation_id w ≡ holds payload)
      × (is_dict payload ≡ true)
      × (is_completed services correlation_id payload ≡ true)

  abbrev pub ReadsBack : Type 0
  ReadsBack =
      (correlation_id : String) (payload : Json) (w w' : W)
      → services.write_health_evidence correlation_id payload w ≡ (ok tt, w')
      → services.health_evidence correlation_id w' ≡ holds payload

  write_all-IsKept :
      ReadsBack
      → (correlation_id : String) (a b c : ℕ) (w : W) {r : Json} {w' : W}
      → write_all services correlation_id a b c w ≡ (ok r, w')
      → IsKept correlation_id w'
  unfolding get
  write_all-IsKept reads_back correlation_id a b c w {r} {w'} h =
      let payload =
        health_payload services correlation_id a b c (services.configci_present w)
          (services.cipolicy_schema_present w) in
      let (t, w1, e, h1) =
        resume-eq-ok (services.write_health_evidence correlation_id payload w)
          (λ _. pure (health_report services false payload)) h in
      subst (IsKept correlation_id) (ap (λ (p : Result Json × W). p.1) h1) (
        payload,
        reads_back correlation_id payload w w1 (e ∙ ap (λ (u : Unit {0}). (ok u, w1)) (unit t)),
        refl,
        done correlation_id,
      )
    where
      unit : (t : Unit {0}) → t ≡ tt
      unit t = refl

      done : (s : String) → ((s == s) && true) ≡ true
      done s = rw (eq_refl s) refl

  check-IsKept :
      ReadsBack
      → (correlation_id : String) (w : W) {r : Json} {w' : W}
      → check services correlation_id w ≡ (ok r, w')
      → IsKept correlation_id w'
  check-IsKept reads_back correlation_id w h =
      let (a, w1, _, h1) =
        resume-eq-ok (services.run_check "dism.exe /Online /Cleanup-Image /CheckHealth" w)
          (scan services correlation_id) h in
      let (b, w2, _, h2) =
        resume-eq-ok (services.run_check "dism.exe /Online /Cleanup-Image /ScanHealth" w1)
          (verify_files services correlation_id a) h1 in
      let (c, w3, _, h3) =
        resume-eq-ok (services.run_check "sfc.exe /verifyonly" w2)
          (write_all services correlation_id a b) h2 in
      write_all-IsKept reads_back correlation_id a b c w3 h3

  check_on_windows-IsKept :
      ReadsBack
      → (correlation_id : String) (w : W) {r : Json} {w' : W}
      → check_on_windows services correlation_id w ≡ (ok r, w')
      → IsKept correlation_id w'
  check_on_windows-IsKept reads_back correlation_id w {r} {w'} h = go services.is_windows h
    where
      go :
          (b : Bool)
          → (if b
                then check services correlation_id
                else fail broker_error "windows_component_health_requires_windows")
              w
            ≡ (ok r, w')
          → IsKept correlation_id w'
      go true h = check-IsKept reads_back correlation_id w h
      go false h =
          let impossible : ⊥ = cc (ap (λ (p : Result Json × W). p.0) h) in absurd impossible

  reuse_or_check-IsKept :
      ReadsBack
      → (correlation_id : String) (w : W) (file : File) {r : Json} {w' : W}
      → services.health_evidence correlation_id w ≡ file
      → reuse_or_check services correlation_id file w ≡ (ok r, w')
      → IsKept correlation_id w'
  reuse_or_check-IsKept reads_back correlation_id w absent e h =
      check_on_windows-IsKept reads_back correlation_id w h
  reuse_or_check-IsKept reads_back correlation_id w (unreadable exc) e h =
      let impossible : ⊥ = cc (ap (λ (p : Result Json × W). p.0) h) in absurd impossible
  reuse_or_check-IsKept reads_back correlation_id w (holds payload) {r} {w'} e h =
      go (is_dict payload) refl (is_completed services correlation_id payload) refl h
    where
      go :
          (d : Bool)
          → is_dict payload ≡ d
          → (c : Bool) → is_completed services correlation_id payload ≡ c
          → (if d
                then (if c
                    then pure (health_report services true payload)
                    else check_on_windows services correlation_id)
                else fail (other_error "AttributeError") "get")
              w
            ≡ (ok r, w')
          → IsKept correlation_id w'
      go true d true c h =
          subst (IsKept correlation_id) (ap (λ (p : Result Json × W). p.1) h) (payload, e, d, c)
      go true d false c h = check_on_windows-IsKept reads_back correlation_id w h
      go false d c _ h =
          let impossible : ⊥ = cc (ap (λ (p : Result Json × W). p.0) h) in absurd impossible

  -- Let a written receipt be read back. After a check of Windows' components that ended well, the same
  -- command asked again ends well too, and does nothing at all.
  pub windows_component_health-once :
      ReadsBack
      → (correlation_id : String) (w : W) {r : Json} {w' : W}
      → windows_component_health services correlation_id w ≡ (ok r, w')
      → (again : Json) × (windows_component_health services correlation_id w' ≡ (ok again, w'))
  unfolding windows_component_health
  windows_component_health-once reads_back correlation_id w {r} {w'} h =
      let (payload, e, d, c) =
        reuse_or_check-IsKept reads_back correlation_id w
          (services.health_evidence correlation_id w) refl h in
      (health_report services true payload, rw (e, d, c) refl)
