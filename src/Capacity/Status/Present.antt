-- ===== src/Capacity/Status/Present.antt =====
-- What an answer of `inspect` means, and that it finds what a claim has left.
use Prim.Native.String.{count}
use desktop_pc24x7_runtime.Prelude.{
  ◌≤◌, ◌<◌, ◌≡◌, refl, Bool, true, false, ◌&&◌, Option, none, some, ◌⊎◌, inl, inr, String, arith,
}
use desktop_pc24x7_runtime.Json.{Json, get, is_text, is_true}
use desktop_pc24x7_runtime.Result.{Result, ok, raised, Result-cases, ◌>>◌}
use desktop_pc24x7_runtime.Text.{Python}
use desktop_pc24x7_runtime.Capacity.Keys.{is_unique, has_exactly}
use desktop_pc24x7_runtime.Capacity.Issue.{is_ascii, is_int}
use desktop_pc24x7_runtime.Capacity.Event.{is_false}
use desktop_pc24x7_runtime.Capacity.Metadata.{host, validate_metadata}
use desktop_pc24x7_runtime.Capacity.File.{Info, ordinary}
use desktop_pc24x7_runtime.Capacity.Status.{
  original_request_id, original_source_sha, original_rules_sha, original_issue_number, max_bytes,
  receipt_keys, accept, rejected, names_original, receipt, Look, decoded, metadata_part,
  check_receipt, read_claim_file, inspect,
}

-- The receipt of the original request, whole and unaltered.
pub record IsOriginal (found : Json) : Type 0 where
  pub request_id : is_text (get "request_id" found) original_request_id ≡ true
  pub source_sha : is_text (get "source_sha" found) original_source_sha ≡ true
  pub rules_sha : is_text (get "rules_sha" found) original_rules_sha ≡ true
  pub issue_number : is_text (get "issue_number" found) original_issue_number ≡ true
  pub state : is_text (get "state" found) "CLAIMED_UNCERTAIN" ≡ true
  pub valid : validate_metadata (metadata_part found) ≡ ok tt

steps-ok :
    (a b : Bool) (r : Result (Unit {0}))
    → (accept a >> (rejected r >> accept b)) ≡ ok tt
    → (a ≡ true) × (r ≡ ok tt) × (b ≡ true)
steps-ok true true (ok tt) h = (refl, refl, refl)
steps-ok true true (raised exc) h = cc
steps-ok true false (ok tt) h = cc
steps-ok true false (raised exc) h = cc
steps-ok false b r h = cc

all_hold :
    (a b c d e f g rest : Bool)
    → (a && (b && (c && (d && (e && (f && (g && rest))))))) ≡ true
    → (b ≡ true) × (c ≡ true) × (d ≡ true) × (e ≡ true) × (g ≡ true)
all_hold a b c d e f g rest h =
    (ground arith, ground arith, ground arith, ground arith, ground arith)

check_receipt-IsOriginal : (found : Json) → check_receipt found ≡ ok tt → IsOriginal found
unfolding check_receipt names_original
check_receipt-IsOriginal found h =
    let (exact, valid, original) =
      steps-ok (has_exactly receipt_keys found) (names_original found)
        (validate_metadata (metadata_part found)) h in
    let (request_id, source_sha, rules_sha, issue_number, state) =
      all_hold (is_int 1 (get "schema" found))
        (is_text (get "request_id" found) original_request_id)
        (is_text (get "source_sha" found) original_source_sha)
        (is_text (get "rules_sha" found) original_rules_sha)
        (is_text (get "issue_number" found) original_issue_number) (is_text (get "host" found) host)
        (is_text (get "state" found) "CLAIMED_UNCERTAIN")
        (is_true (get "audit_state_changed" found) && is_false (get "configuration_changed" found))
        original in
    record {
      request_id = request_id;
      source_sha = source_sha;
      rules_sha = rules_sha;
      issue_number = issue_number;
      state = state;
      valid = valid;
    }

decoded-eq-ok :
    (ascii : Bool) (parsed : Option Json) (found : Json)
    → decoded ascii parsed ≡ ok found
    → (parsed ≡ some found) × (is_unique found ≡ true)
decoded-eq-ok true (some old) found h = (ground arith, ground arith)
decoded-eq-ok true none found h = cc
decoded-eq-ok false parsed found h = cc

module _ (python : Python) (loads : String → Option Json) (look : Look) where
  -- The file was whole at one moment, small, and an original receipt.
  pub record IsPresent : Type 0 where
    pub found : Json
    pub parsed : loads look.raw ≡ some found
    pub unique : is_unique found ≡ true
    pub original : IsOriginal found
    pub small : count look.raw ≤ max_bytes
    pub not_empty : 0 < count look.raw

  read_claim_file-IsPresent :
      (before : Info) (answer : Json)
      → read_claim_file python loads look before ≡ ok answer
      → IsPresent × (answer ≡ receipt "CLAIM_PRESENT_UNCERTAIN" true)
  unfolding read_claim_file
  read_claim_file-IsPresent before answer h =
      elim (Result-cases (decoded (is_ascii look.raw) (loads look.raw))) [
        | inr (e, d) ↦ ground arith
        | inl (found, d) ↦ elim (Result-cases look.lstat_after) [
          | inr (e, l) ↦ ground arith
          | inl (after, l) ↦
              let (parsed, unique) = decoded-eq-ok (is_ascii look.raw) (loads look.raw) found d in
              (
                record {
                  found = found;
                  parsed = parsed;
                  unique = unique;
                  original = check_receipt-IsOriginal found (ground arith);
                  small = ground arith;
                  not_empty = ground arith;
                },
                ground arith,
              )
        ]
      ]

  -- An answer of the look at the claim is that there was no file, or that the file was, byte for byte,
  -- a valid receipt of the original request with each of its keys once, not empty and of at most
  -- 4096 bytes.
  pub inspect-answers :
      (answer : Json)
      → inspect python loads look ≡ ok answer
      → ((look.lstat ≡ ok none) × (answer ≡ receipt "CLAIM_ABSENT_AT_READ_TIME" false))
        ⊎ (IsPresent × (answer ≡ receipt "CLAIM_PRESENT_UNCERTAIN" true))
  unfolding inspect
  inspect-answers answer h = elim (Result-cases look.lstat) [
    | inr (e, l) ↦ ground arith
    | inl (found, l) ↦ go found l
  ]
    where
      go :
          (found : Option Info)
          → look.lstat ≡ ok found
          → ((look.lstat ≡ ok none) × (answer ≡ receipt "CLAIM_ABSENT_AT_READ_TIME" false))
            ⊎ (IsPresent × (answer ≡ receipt "CLAIM_PRESENT_UNCERTAIN" true))
      go none l = inl (l, ground arith)
      go (some info) l = elim (Result-cases (ordinary info false)) [
        | inr (e, o) ↦ ground arith
        | inl (before, o) ↦ inr (read_claim_file-IsPresent before answer (ground arith))
      ]
