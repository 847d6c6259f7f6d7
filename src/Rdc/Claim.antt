-- ===== src/Rdc/Claim.antt =====
-- `read_headless_claim`: whether the headless owner has said, a moment ago, that it is ready.
use desktop_pc24x7_runtime.Prelude.{
  ℕ, ◌+◌, ◌≤◌, ◌≡◌, ◌↔◌, refl, Bool, true, false, not, ◌&&◌, Option, none, some, String, arith, leb,
  inl, inr, Option-cases, if◌then◌else◌,
}
use desktop_pc24x7_runtime.Json.{Json, null, get, is_dict, is_true}
use desktop_pc24x7_runtime.Result.{
  Result, ok, raised, raise, Exception, ExceptionClass, other_error, value_error, os_error,
  type_error, ◌>>=◌,
}
use desktop_pc24x7_runtime.Text.{Python, Stamp, replace_z, str_or_empty}

-- What the claim file holds.
pub data ClaimFile : Type 0 where
  missing : ClaimFile
  -- The read or json.loads raises.
  unreadable : Exception → ClaimFile
  payload : Json → ClaimFile

-- The dict that is returned; the age and the name of an error are left out.
pub record Claim : Type 0 where
  pub fresh : Bool
  pub reason : String
  pub pid : Json

abbrev pub unfresh : String → Claim
unfresh reason = record { fresh = false; reason = reason; pid = null }

abbrev aware_stamp : Option Stamp → Result ℕ
aware_stamp none = raise value_error "Invalid isoformat string"
aware_stamp (some stamp) =
    if stamp.aware then ok stamp.instant else raise value_error "updated_at sem timezone"

-- 0 <= now - updated <= max_age
abbrev pub in_age : ℕ → ℕ → ℕ → Bool
in_age max_age now updated = leb updated now && leb now (updated + max_age)

-- The body of the try statement for a payload. A payload that is no dict has no method get.
unfoldable pub judge_claim : Python → ℕ → ℕ → Json → Result Claim
judge_claim python max_age now claim =
    if not (is_dict claim)
    then raise (other_error "AttributeError") "get"
    else if not (is_true (get "ready" claim))
    then ok (unfresh "claim_not_ready")
    else (do
      updated ←
          aware_stamp
            (python.fromisoformat (replace_z (str_or_empty python (get "updated_at" claim))))
      ok (record {
        fresh = in_age max_age now updated;
        reason = if in_age max_age now updated then "fresh" else "claim_stale";
        pid = get "pid" claim;
      }))

-- except (OSError, ValueError, TypeError, json.JSONDecodeError); the last is a ValueError.
abbrev is_claim_error : ExceptionClass → Bool
is_claim_error os_error = true
is_claim_error value_error = true
is_claim_error type_error = true
is_claim_error _ = false

abbrev guarded : Result Claim → Result Claim
guarded (ok claim) = ok claim
guarded (raised exc) = if is_claim_error exc.class then ok (unfresh "claim_invalid") else raised exc

-- read_headless_claim, and read_rdc_claim of the watchdog, which differ in the age that they allow.
unfoldable pub read_claim : Python → ℕ → ℕ → ClaimFile → Result Claim
unfolding judge_claim
read_claim python max_age now missing = ok (unfresh "claim_missing")
read_claim python max_age now (unreadable exc) = guarded (raised exc)
read_claim python max_age now (payload claim) = guarded (judge_claim python max_age now claim)

-- What a file is that proves a living owner: a dict that says ready, with a time of known zone that
-- is neither in the future nor older than `max_age`.
abbrev pub IsLive : Python → ℕ → ℕ → Json → Type 0
IsLive python max_age now claim =
    (is_dict claim ≡ true)
    × (is_true (get "ready" claim) ≡ true)
    × (updated : ℕ) × (python.fromisoformat
          (replace_z (str_or_empty python (get "updated_at" claim)))
        ≡ some (record { aware = true; instant = updated }))
    × (updated ≤ now)
    × (now ≤ updated + max_age)

abbrev pub says_fresh : Result Claim → Bool
says_fresh (ok claim) = claim.fresh
says_fresh (raised _) = false

-- The claim file is read as fresh exactly if it holds the claim of a living owner.
pub read_claim-fresh_iff :
    (python : Python) (max_age now : ℕ) (file : ClaimFile)
    → (says_fresh (read_claim python max_age now file) ≡ true)
      ↔ ((claim : Json) × (file ≡ payload claim) × IsLive python max_age now claim)
unfolding read_claim
read_claim-fresh_iff python max_age now missing = (λ h. cc, λ h. cc (h.1))
read_claim-fresh_iff python max_age now (unreadable exc) = (λ h. ground arith, λ h. cc (h.1))
read_claim-fresh_iff python max_age now (payload claim) =
    let read = python.fromisoformat (replace_z (str_or_empty python (get "updated_at" claim))) in
    (
      λ h. elim (Option-cases read) [
        | inl e ↦ ground arith
        | inr (stamp, e) ↦ (
          claim,
          refl,
          (ground arith, ground arith, stamp.instant, ground arith, ground arith, ground arith),
        )
      ],
      λ (claim', same, live). ground (arith, live),
    )
