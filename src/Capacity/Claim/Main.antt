-- ===== src/Capacity/Claim/Main.antt =====
-- `main` of the claim: the admission again, and then the claim.
use desktop_pc24x7_runtime.Prelude.{ℕ, not, ◌&&◌, Option, String, ◌==◌}
use desktop_pc24x7_runtime.Json.{Json}
use desktop_pc24x7_runtime.Result.{Result, ok, raised, claim_error}
use desktop_pc24x7_runtime.Effect.{Effect, fail_if, lift, ◌>>=◌}
use desktop_pc24x7_runtime.Text.{Python}
use desktop_pc24x7_runtime.Capacity.Metadata.{host}
use desktop_pc24x7_runtime.Capacity.Event.{Environment}
use desktop_pc24x7_runtime.Capacity.Admission.{Site, assess}
use desktop_pc24x7_runtime.Capacity.Claim.{Claims, Checks, Claimed, claim}
use desktop_pc24x7_runtime.Capacity.Claim.Request.{claim_metadata}

module _ {W A : Type 0} where
  abbrev pub on_first : Claims → Result A × W → Result A × (W × Claims)
  on_first claims (result, w) = (result, (w, claims))

  -- A step that leaves the claims alone.
  abbrev pub outside : Effect W A → Effect (W × Claims) A
  outside step (w, claims) = on_first claims (step w)

  abbrev pub on_second : W → Result A × Claims → Result A × (W × Claims)
  on_second w (result, claims) = (result, (w, claims))

  abbrev pub inside : Effect Claims A → Effect (W × Claims) A
  inside step (w, claims) = on_second w (step claims)

-- socket.gethostname() and os.name.
pub record Machine : Type 0 where
  pub hostname : String
  pub os_name : String

module _ {W : Type 0} (python : Python) (loads : String → Option Json) (dumps : Json → String)
    (site : Site W) where
  abbrev pub after_metadata : Checks → Json → Effect (W × Claims) Claimed
  after_metadata checks metadata = inside (claim dumps checks metadata)

  abbrev pub after_admission : Checks → Environment → Json → Effect (W × Claims) Claimed
  after_admission checks env request = lift (claim_metadata request env) >>= after_metadata checks

  abbrev pub admit : Checks → Json → Environment → Unit {0} → Effect (W × Claims) Claimed
  admit checks event env _ =
      outside (assess python loads site event env) >>= after_admission checks env

  -- The body of the try block, from the event on.
  unfoldable pub main : Machine → Checks → Json → Environment → Effect (W × Claims) Claimed
  main machine checks event env =
      fail_if (not (python.upper machine.hostname == host && machine.os_name == "nt")) claim_error
        "HOST_REJECTED"
      >>= admit checks event env

-- The code with which the process ends.
abbrev pub exit_code : {A : Type 0} → Result A → ℕ
exit_code (ok _) = 0
exit_code (raised _) = 2
