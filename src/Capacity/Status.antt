-- ===== src/Capacity/Status.antt =====
-- scripts/desktop_gitlab_capacity_claim_status.py: the look at the claim of the original request.
pub mod Present
pub mod AfterClaim
use Prim.Native.String.{count}
use desktop_pc24x7_runtime.Prelude.{
  ℕ, ◌≤◌, Bool, true, false, not, ◌&&◌, Option, none, some, List, [], ◌∷◌, ◌++◌, map, String, ◌==◌,
  ltb, leb, eqb, if◌then◌else◌,
}
use desktop_pc24x7_runtime.Json.{Json, num, text, bool, object, get, is_text, is_true}
use desktop_pc24x7_runtime.Result.{Result, ok, raised, raise, raise_if, other_error, ◌>>=◌, ◌>>◌}
use desktop_pc24x7_runtime.Text.{Python}
use desktop_pc24x7_runtime.Capacity.Keys.{has_exactly, is_unique}
use desktop_pc24x7_runtime.Capacity.Issue.{is_ascii, is_int}
use desktop_pc24x7_runtime.Capacity.Event.{is_false}
use desktop_pc24x7_runtime.Capacity.Metadata.{host, metadata_keys, validate_metadata}
use desktop_pc24x7_runtime.Capacity.File.{Info, ordinary, same_file}

abbrev pub original_request_id : String
original_request_id = "d8b7342a-fc1e-445e-82af-2f6ae2319728"

abbrev pub original_source_sha : String
original_source_sha = "8aa192cbf7712c1da72a4b37dcb3ad3693ae5130"

abbrev pub original_rules_sha : String
original_rules_sha = "11e2e86d0283e83247d8058d05bbabe3dd7cc2c2"

abbrev pub original_issue_number : String
original_issue_number = "128"

abbrev pub max_bytes : ℕ
max_bytes = 4096

abbrev pub receipt_keys : List String
receipt_keys =
    metadata_keys ++ ("schema" ∷ "state" ∷ "audit_state_changed" ∷ "configuration_changed" ∷ [])

-- _require
abbrev pub accept : Bool → Result (Unit {0})
accept test = raise_if (not test) (other_error "ReadbackRejected") "CLAIM_READBACK_REJECTED"

-- _receipt; both callers give one of its two states.
unfoldable pub receipt : String → Bool → Json
receipt status present = object (
    ("schema_version", num 1)
    ∷ ("status", text status)
    ∷ ("host", text host)
    ∷ ("request_id", text original_request_id)
    ∷ ("claim_present", bool present)
    ∷ ("replay_authorized", bool false)
    ∷ ("configuration_changed", bool false)
    ∷ ("audit_state_changed", bool false)
    ∷ ("secrets_accessed", bool false)
    ∷ [])

-- What the host and the file system answer. `lstat` is none for FileNotFoundError; `raw` is the file
-- as it stands, and of it the stream gives the first 4097 characters.
pub record Look : Type 0 where
  pub hostname : String
  pub system : String
  -- windows_private_root up to its yield, and ordinary(root, True).
  pub enter : Result (Unit {0})
  pub lstat : Result (Option Info)
  -- The opening of the file, and verify_file.
  pub verify : Result (Unit {0})
  pub opened : Info
  pub opened_after : Info
  pub raw : String
  pub lstat_after : Result Info
  -- The rest of windows_private_root.
  pub leave : Result (Unit {0})

-- Any exception of the decoding or of the validation becomes the one rejection.
abbrev pub rejected : Result (Unit {0}) → Result (Unit {0})
rejected (ok done) = ok done
rejected (raised exc) = accept false

-- json.loads with _no_duplicate_keys; `loads` keeps a key that comes twice.
abbrev pub decoded : Bool → Option Json → Result Json
decoded true (some found) =
    if is_unique found
    then ok found
    else raise (other_error "ReadbackRejected") "CLAIM_READBACK_REJECTED"
decoded true none = raise (other_error "ReadbackRejected") "CLAIM_READBACK_REJECTED"
decoded false found = raise (other_error "ReadbackRejected") "CLAIM_READBACK_REJECTED"

-- {k: data[k] for k in ...}
abbrev pub metadata_part : Json → Json
metadata_part found = object (map (λ key. (key, get key found)) metadata_keys)

-- The last test of the receipt.
unfoldable pub names_original : Json → Bool
names_original found =
    is_int 1 (get "schema" found)
    && (is_text (get "request_id" found) original_request_id
        && (is_text (get "source_sha" found) original_source_sha
            && (is_text (get "rules_sha" found) original_rules_sha
                && (is_text (get "issue_number" found) original_issue_number
                    && (is_text (get "host" found) host
                        && (is_text (get "state" found) "CLAIMED_UNCERTAIN"
                            && (is_true (get "audit_state_changed" found)
                                && is_false (get "configuration_changed" found))))))))

unfoldable pub check_receipt : Json → Result (Unit {0})
check_receipt found = do
  accept (has_exactly receipt_keys found)
  rejected (validate_metadata (metadata_part found))
  accept (names_original found)

-- One file throughout, of one size, read to its end.
abbrev pub is_steady : Info → Look → Info → Bool
is_steady before look after =
    ltb 0 (count look.raw)
    && (leb (count look.raw) max_bytes
        && (same_file before look.opened
            && (same_file look.opened look.opened_after
                && (same_file look.opened_after after
                    && (eqb before.size look.opened.size
                        && (eqb look.opened.size look.opened_after.size
                            && (eqb look.opened_after.size after.size
                                && eqb after.size (count look.raw))))))))

abbrev absent : Look → Result Json
absent look = do look.leave; ok (receipt "CLAIM_ABSENT_AT_READ_TIME" false)

module _ (python : Python) (loads : String → Option Json) where
  -- From the opened file on.
  unfoldable pub read_claim_file : Look → Info → Result Json
  unfolding ordinary
  read_claim_file look before = do
    look.verify
    accept (look.opened.is_regular && eqb look.opened.links 1)
    after ← look.lstat_after
    found_after ← ordinary after false
    accept (is_steady before look found_after)
    found ← decoded (is_ascii look.raw) (loads look.raw)
    check_receipt found
    look.leave
    ok (receipt "CLAIM_PRESENT_UNCERTAIN" true)

  abbrev pub look_at : Look → Option Info → Result Json
  look_at look none = absent look
  look_at look (some info) = do before ← ordinary info false; read_claim_file look before

  unfoldable pub inspect : Look → Result Json
  unfolding ordinary
  inspect look = do
    accept (python.upper look.hostname == host && look.system == "Windows")
    look.enter
    found ← look.lstat
    look_at look found
