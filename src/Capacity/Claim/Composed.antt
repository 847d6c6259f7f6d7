-- ===== src/Capacity/Claim/Composed.antt =====
-- The admission and the claim together: a process that ends well.
use desktop_pc24x7_runtime.Prelude.{
  ◌≡◌, ap, sym, ◌∙◌, subst, Bool, true, false, not, ◌&&◌, Option, none, some, Option-cases, inl,
  inr, String, ◌==◌, eq_iff, lookup, arith,
}
use desktop_pc24x7_runtime.Json.{Json, get, field_of}
use desktop_pc24x7_runtime.Result.{Result, ok, claim_error}
use desktop_pc24x7_runtime.Effect.{resume-eq-ok, lift, fail_if}
use desktop_pc24x7_runtime.Text.{Python}
use desktop_pc24x7_runtime.Capacity.Metadata.{host, validate_metadata}
use desktop_pc24x7_runtime.Capacity.Issue.{string_of}
use desktop_pc24x7_runtime.Capacity.Event.{Environment, is_some}
use desktop_pc24x7_runtime.Capacity.Admission.{Site, assess}
use desktop_pc24x7_runtime.Capacity.Admission.Admitted.{IsAdmitted, assess-IsAdmitted}
use desktop_pc24x7_runtime.Capacity.Claim.{Claims, Checks, Claimed, claim, request_of, receipt_of}
use desktop_pc24x7_runtime.Capacity.Claim.Durable.{claim-durable}
use desktop_pc24x7_runtime.Capacity.Claim.Request.{claim_metadata, environ}
use desktop_pc24x7_runtime.Capacity.Claim.Main.{
  main, admit, after_admission, after_metadata, outside, on_first, on_second, Machine,
}

env_is-lookup :
    (env : Environment) (key value : String) (found : Option String)
    → is_some found value ≡ true
    → found ≡ some value
env_is-lookup env key value none h = cc
env_is-lookup env key value (some old) h = ap some ((eq_iff old value).0 h)

module _ (request : Json) (env : Environment) where
  -- The claim is of the admitted request.
  claim_metadata-request :
      (metadata : Json)
      → claim_metadata request env ≡ ok metadata
      → request_of metadata ≡ string_of (get "request_id" request)
  unfolding claim_metadata environ get field_of
  claim_metadata-request metadata h = elim (Option-cases (lookup "CAPACITY_REQUEST_ID" env)) [
    | inl e ↦ ground arith
    | inr (found, e) ↦ ground (arith, eq_iff found (string_of (get "request_id" request)))
  ]

module _ {W A : Type 0} where
  on_first-eq-ok :
      (claims : Claims) (r : Result A × W) (a : A) (later : W × Claims)
      → on_first claims r ≡ (ok a, later)
      → (r ≡ (ok a, later.0)) × (later.1 ≡ claims)
  on_first-eq-ok claims (result, w) a later h = (
    ap (λ (p : Result A × (W × Claims)). (p.0, p.1.0)) h,
    sym (ap (λ (p : Result A × (W × Claims)). p.1.1) h),
  )

  on_second-eq-ok :
      (w : W) (r : Result A × Claims) (a : A) (later : W × Claims)
      → on_second w r ≡ (ok a, later)
      → (r ≡ (ok a, later.1)) × (later.0 ≡ w)
  on_second-eq-ok w (result, claims) a later h = (
    ap (λ (p : Result A × (W × Claims)). (p.0, p.1.1)) h,
    sym (ap (λ (p : Result A × (W × Claims)). p.1.0) h),
  )

module _ {W : Type 0} (python : Python) (loads : String → Option Json) (dumps : Json → String)
    (site : Site W) where
  -- A claim made in the right way: of an admitted request, that had no file and has its receipt now.
  pub record IsAdmittedClaim (event : Json) (env : Environment) (claims : Claims)
      (claimed : Claimed) (later : W × Claims) : Type 0 where
    pub admitted : Json
    pub metadata : Json
    pub admission : IsAdmitted python loads site event env admitted later.0
    pub named : claimed.request_id ≡ string_of (get "request_id" admitted)
    pub valid : validate_metadata metadata ≡ ok tt
    pub unclaimed : lookup claimed.request_id claims ≡ none
    pub stored : lookup claimed.request_id later.1 ≡ some (dumps (receipt_of metadata))

  after_admission-Is :
      (checks : Checks) (event : Json) (env : Environment) (admitted : Json) (claimed : Claimed)
      (w : W) (claims : Claims) (later : W × Claims)
      → IsAdmitted python loads site event env admitted w
      → after_admission python loads dumps site checks env admitted (w, claims)
        ≡ (ok claimed, later)
      → IsAdmittedClaim event env claims claimed later
  after_admission-Is checks event env admitted claimed w claims later proven h0 =
      let (metadata, w1, e1, h1) =
        resume-eq-ok (lift (claim_metadata admitted env) (w, claims))
          (after_metadata python loads dumps site checks) h0 in
      let metadata_eq = ap (λ (p : Result Json × (W × Claims)). p.0) e1 in
      let world_eq = ap (λ (p : Result Json × (W × Claims)). p.1) e1 in
      let (claim_eq, same_w) =
        on_second-eq-ok w1.0 (claim dumps checks metadata w1.1) claimed later h1 in
      let (valid, unclaimed, stored, named) =
        claim-durable dumps checks metadata w1.1 later.1 claimed claim_eq in
      record {
        admitted = admitted;
        metadata = metadata;
        admission =
            subst (IsAdmitted python loads site event env admitted)
              (ap (λ (p : W × Claims). p.0) world_eq ∙ sym same_w) proven;
        named = named ∙ claim_metadata-request admitted env metadata metadata_eq;
        valid = valid;
        unclaimed =
            ap (λ c. lookup claimed.request_id c) (ap (λ (p : W × Claims). p.1) world_eq)
            ∙ ap (λ r. lookup r w1.1) named
            ∙ unclaimed;
        stored = ap (λ r. lookup r later.1) named ∙ stored;
      }

  fail_if-same :
      (test : Bool) (message : String) (world after : W × Claims) (done : Unit {0})
      → fail_if test claim_error message world ≡ (ok done, after)
      → world ≡ after
  fail_if-same true message world after done h = cc
  fail_if-same false message world after done h =
      ap (λ (p : Result (Unit {0}) × (W × Claims)). p.1) h

  admit-Is :
      (checks : Checks) (event : Json) (env : Environment) (claimed : Claimed) (claims : Claims)
      (later world : W × Claims)
      → world.1 ≡ claims
      → (done : Unit {0})
      → admit python loads dumps site checks event env done world ≡ (ok claimed, later)
      → IsAdmittedClaim event env claims claimed later
  admit-Is checks event env claimed claims later world same done h0 =
      let (admitted, w1, e1, h1) =
        resume-eq-ok (outside (assess python loads site event env) world)
          (after_admission python loads dumps site checks env) h0 in
      let (admitted_eq, kept) =
        on_first-eq-ok world.1 (assess python loads site event env world.0) admitted w1 e1 in
      subst (λ c. IsAdmittedClaim event env c claimed later) (kept ∙ same)
        (after_admission-Is checks event env admitted claimed w1.0 w1.1 later
          (assess-IsAdmitted python loads site event env admitted world.0 w1.0 admitted_eq) h1)

  -- A process that ends well has found the request admitted just now, has claimed that very
  -- request, which had no file, and leaves a file with the whole receipt of valid metadata.
  pub main-IsAdmittedClaim :
      (machine : Machine) (checks : Checks) (event : Json) (env : Environment) (claimed : Claimed)
      (w : W) (claims : Claims) (later : W × Claims)
      → main python loads dumps site machine checks event env (w, claims) ≡ (ok claimed, later)
      → IsAdmittedClaim event env claims claimed later
  unfolding main
  main-IsAdmittedClaim machine checks event env claimed w claims later h0 =
      let (done, w1, e1, h1) =
        resume-eq-ok
          (fail_if (not (python.upper machine.hostname == host && machine.os_name == "nt"))
            claim_error "HOST_REJECTED" (w, claims))
          (admit python loads dumps site checks event env) h0 in
      let same =
        fail_if-same (not (python.upper machine.hostname == host && machine.os_name == "nt"))
          "HOST_REJECTED" (w, claims) w1 done e1 in
      admit-Is checks event env claimed claims later w1 (sym (ap (λ (p : W × Claims). p.1) same))
        done h1
