-- ===== src/Capacity/Status/AfterClaim.antt =====
-- The look at the claim after the claim of the original request.

use desktop_pc24x7_runtime.Prelude.{
  ◌≡◌, refl, ap, sym, ◌∙◌, true, false, Option, some, String, lookup, arith,
}
use desktop_pc24x7_runtime.Json.{Json, get, field_of, has_field}
use desktop_pc24x7_runtime.Result.{ok, ◌>>◌}
use desktop_pc24x7_runtime.Text.{Python}
use desktop_pc24x7_runtime.Capacity.Keys.{is_unique}
use desktop_pc24x7_runtime.Capacity.Issue.{is_ascii}
use desktop_pc24x7_runtime.Capacity.Metadata.{host, validate_metadata}
use desktop_pc24x7_runtime.Capacity.File.{Info, ordinary}
use desktop_pc24x7_runtime.Capacity.Claim.{Claims, Checks, Claimed, claim, receipt_of}
use desktop_pc24x7_runtime.Capacity.Claim.Request.{metadata_of}
use desktop_pc24x7_runtime.Capacity.Claim.Durable.{claim-durable}
use desktop_pc24x7_runtime.Capacity.Status.{
  original_request_id, original_source_sha, original_rules_sha, original_issue_number, accept,
  rejected, names_original, receipt, Look, decoded, check_receipt, is_steady, read_claim_file,
  inspect,
}

-- A look that nothing disturbs: the right host, and one ordinary file throughout.
pub record IsCalm (python : Python) (look : Look) (info : Info) : Type 0 where
  pub hostname : python.upper look.hostname ≡ host
  pub system : look.system ≡ "Windows"
  pub enter : look.enter ≡ ok tt
  pub lstat : look.lstat ≡ ok (some info)
  pub before : ordinary info false ≡ ok info
  pub verify : look.verify ≡ ok tt
  pub regular : look.opened.is_regular ≡ true
  pub links : look.opened.links ≡ 1
  pub lstat_after : look.lstat_after ≡ ok info
  pub steady : is_steady info look info ≡ true
  pub leave : look.leave ≡ ok tt

module _ (issue run attempt : String) where
  -- What the claim of the original request is made of.
  abbrev pub original : Json
  original =
      metadata_of original_request_id original_source_sha original_rules_sha issue
        original_issue_number run attempt

  check_receipt-receipt_of :
      validate_metadata original ≡ ok tt → check_receipt (receipt_of original) ≡ ok tt
  unfolding check_receipt get field_of names_original
  check_receipt-receipt_of valid = ap (λ v. rejected v >> accept true) valid

  is_unique-receipt_of : is_unique (receipt_of original) ≡ true
  unfolding is_unique has_field
  is_unique-receipt_of = refl

module _ (python : Python) (loads : String → Option Json) (look : Look) (info : Info) where
  some-injective : (a b : String) → some a ≡ some b → a ≡ b
  some-injective a b h = cc

  decoded-raw :
      (found : Json)
      → loads look.raw ≡ some found
      → is_ascii look.raw ≡ true
      → is_unique found ≡ true
      → decoded (is_ascii look.raw) (loads look.raw) ≡ ok found
  decoded-raw found parsed ascii unique = ground arith

  read_claim_file-present :
      (found : Json)
      → IsCalm python look info
      → decoded (is_ascii look.raw) (loads look.raw) ≡ ok found
      → check_receipt found ≡ ok tt
      → read_claim_file python loads look info ≡ ok (receipt "CLAIM_PRESENT_UNCERTAIN" true)
  unfolding read_claim_file
  read_claim_file-present found calm parsed valid = rw (
    calm.verify, calm.regular, calm.links, calm.lstat_after, calm.before, calm.steady, parsed,
    valid, calm.leave,
  )

  inspect-present :
      IsCalm python look info
      → read_claim_file python loads look info ≡ ok (receipt "CLAIM_PRESENT_UNCERTAIN" true)
      → inspect python loads look ≡ ok (receipt "CLAIM_PRESENT_UNCERTAIN" true)
  unfolding inspect
  inspect-present calm read =
      simp (calm.hostname, calm.system, calm.enter, calm.lstat, calm.before, read)

  -- Let json.loads read back the receipt of the original request, with its keys sorted, from what
  -- json.dumps makes of it, and let that be ASCII. Once a claim of that request has returned, a look
  -- at it that nothing disturbs, before anything else writes the file, answers that the claim is there.
  pub claim-inspect :
      (dumps : Json → String) (checks : Checks) (issue run attempt : String) (claims after : Claims)
      (claimed : Claimed)
      → claim dumps checks (original issue run attempt) claims ≡ (ok claimed, after)
      → loads (dumps (receipt_of (original issue run attempt)))
        ≡ some (receipt_of (original issue run attempt))
      → is_ascii (dumps (receipt_of (original issue run attempt))) ≡ true
      → lookup original_request_id after ≡ some look.raw
      → IsCalm python look info
      → inspect python loads look ≡ ok (receipt "CLAIM_PRESENT_UNCERTAIN" true)
  unfolding get lookup
  claim-inspect dumps checks issue run attempt claims after claimed returned reads_back ascii seen
        calm =
      let (valid, unclaimed, stored, named) =
        claim-durable dumps checks (original issue run attempt) claims after claimed returned in
      let bytes =
        some-injective look.raw (dumps (receipt_of (original issue run attempt)))
          (sym seen ∙ stored) in
      inspect-present calm (
        read_claim_file-present (receipt_of (original issue run attempt)) calm
          (decoded-raw (receipt_of (original issue run attempt)) (ap loads bytes ∙ reads_back)
            (ap is_ascii bytes ∙ ascii) (is_unique-receipt_of issue run attempt))
          (check_receipt-receipt_of issue run attempt valid))
