-- ===== src/Capacity/Claim/Durable.antt =====
-- What a claim that returned has left.
use desktop_pc24x7_runtime.Prelude.{
  ◌≡◌, ap, sym, ◌∙◌, none, some, Option-cases, inl, inr, String, eq_iff, lookup, arith,
}
use desktop_pc24x7_runtime.Json.{Json}
use desktop_pc24x7_runtime.Result.{Result, ok, ok-injective}
use desktop_pc24x7_runtime.Effect.{Effect, resume-eq-ok, pure, ◌>>◌}
use desktop_pc24x7_runtime.Capacity.Metadata.{validate_metadata}
use desktop_pc24x7_runtime.Capacity.Claim.{
  Claims, Checks, Claimed, claim, begin_claim, write_claim, read_back, request_of, receipt_of,
  open_claim,
}

module _ (checks : Checks) (key payload : String) where
  read_back-holds :
      (claims after : Claims)
      → read_back checks key payload claims ≡ (ok tt, after)
      → lookup key after ≡ some payload
  unfolding read_back
  read_back-holds claims after h = elim (Option-cases (lookup key claims)) [
    | inl e ↦ ground arith
    | inr (observed, e) ↦ ground (arith, eq_iff observed payload)
  ]

module _ (dumps : Json → String) (checks : Checks) (metadata : Json) where
  abbrev last : Effect Claims Claimed
  last = pure (record { request_id = request_of metadata })

  abbrev reading : Effect Claims Claimed
  reading = read_back checks (request_of metadata) (dumps (receipt_of metadata)) >> last

  abbrev writing : Effect Claims Claimed
  writing = write_claim checks (request_of metadata) (dumps (receipt_of metadata)) >> reading

  begin_claim-new :
      (claims after : Claims) (opened : Unit {0})
      → begin_claim checks metadata claims ≡ (ok opened, after)
      → (validate_metadata metadata ≡ ok tt) × (lookup (request_of metadata) claims ≡ none)
  unfolding begin_claim open_claim
  begin_claim-new claims after opened h =
      elim (Option-cases (lookup (request_of metadata) claims)) [
        | inl e ↦ (ground arith, e)
        | inr (old, e) ↦ ground arith
      ]

  -- A claim that returned was of valid metadata and of a request without a file, and has left the
  -- whole receipt in the file.
  pub claim-durable :
      (claims after : Claims) (claimed : Claimed)
      → claim dumps checks metadata claims ≡ (ok claimed, after)
      → (validate_metadata metadata ≡ ok tt)
        × (lookup (request_of metadata) claims ≡ none)
        × (lookup (request_of metadata) after ≡ some (dumps (receipt_of metadata)))
        × (claimed.request_id ≡ request_of metadata)
  unfolding claim
  claim-durable claims after claimed h0 =
      let (opened, w1, e1, h1) =
        resume-eq-ok (begin_claim checks metadata claims) (λ _. writing) h0 in
      let (written, w2, e2, h2) =
        resume-eq-ok (write_claim checks (request_of metadata) (dumps (receipt_of metadata)) w1)
          (λ _. reading) h1 in
      let (read, w3, e3, h3) =
        resume-eq-ok (read_back checks (request_of metadata) (dumps (receipt_of metadata)) w2)
          (λ _. last) h2 in
      let (valid, unclaimed) = begin_claim-new claims w1 opened e1 in
      let stored =
        read_back-holds checks (request_of metadata) (dumps (receipt_of metadata)) w2 w3 e3 in
      (
        valid,
        unclaimed,
        ap (lookup (request_of metadata)) (sym (ap (λ (p : Result Claimed × Claims). p.1) h3))
            ∙ stored,
        sym (ap Claimed.request_id (ok-injective (ap (λ (p : Result Claimed × Claims). p.0) h3))),
      )
