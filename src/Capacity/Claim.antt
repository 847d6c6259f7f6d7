-- ===== src/Capacity/Claim.antt =====
-- `claim`, step by step: the exclusive creation of the claim's file, the write, and the look at it.
pub mod Once
pub mod Request
pub mod Main
pub mod Durable
pub mod Composed
use Prim.Native.Nat.{lt}
use Prim.Native.String.{compare}
use desktop_pc24x7_runtime.Prelude.{
  ℕ, Bool, true, false, not, ◌&&◌, Option, none, some, List, [], ◌∷◌, String, ◌==◌, insert, lookup,
  if◌then◌else◌,
}
use desktop_pc24x7_runtime.Json.{Json, Fields, bool, num, text, obj, end, field, dict, get}
use desktop_pc24x7_runtime.Result.{Result, ok, raised, claim_error}
use desktop_pc24x7_runtime.Effect.{Effect, pure, fail, fail_if, lift, ◌>>=◌, ◌>>◌}
use desktop_pc24x7_runtime.Capacity.Issue.{string_of}
use desktop_pc24x7_runtime.Capacity.Keys.{extend}
use desktop_pc24x7_runtime.Capacity.Metadata.{validate_metadata}

-- The claims in the audit root: the bytes of desktop-capacity-<request_id>.claim.json by request.
-- Nothing in the program takes one away.
abbrev pub Claims : Type 0
Claims = List (String × String)

-- What Windows answers to one claim.
pub record Checks : Type 0 where
  -- windows_private_root up to its yield, and ordinary(root, True).
  pub enter : Result (Unit {0})
  -- verify_open_file.
  pub verify : Result (Unit {0})
  -- The write, and what a write that raises leaves in the file.
  pub write : Result (Unit {0})
  pub torn : String
  -- os.fstat of the written file: a regular file with one link.
  pub is_regular : Bool
  -- The reading of the file, and whether it was the same file each time.
  pub reopen : Result Bool
  -- The rest of windows_private_root.
  pub leave : Result (Unit {0})

pub record Claimed : Type 0 where
  pub request_id : String

-- The order of the keys of a dict under sort_keys=True.
abbrev comes_before : String → String → Bool
comes_before a b = elim (compare a b) [ lt ↦ true | _ ↦ false ]

abbrev insert_key : String → Json → Fields → Fields
insert_key key value end = field key value end
insert_key key value (field k v fields) =
    let rest = insert_key key value fields in
    if comes_before k key then field k v rest else field key value (field k v fields)

abbrev sorted : Fields → Fields
sorted end = end
sorted (field key value fields) = insert_key key value (sorted fields)

abbrev sort_keys : Json → Json
sort_keys (obj fields) = obj (sorted fields)
sort_keys value = value

-- {**metadata, "schema": 1, ...}, with its keys in the order in which json.dumps writes them and
-- json.loads finds them; its values are no dicts.
abbrev pub receipt_of : Json → Json
receipt_of metadata = sort_keys (
    extend metadata (
      ("schema", num 1)
      ∷ ("state", text "CLAIMED_UNCERTAIN")
      ∷ ("audit_state_changed", bool true)
      ∷ ("configuration_changed", bool false)
      ∷ []))

abbrev pub request_of : Json → String
request_of metadata = string_of (get "request_id" metadata)

-- os.open with O_CREAT | O_EXCL.
abbrev pub open_new : String → Option String → Effect Claims (Unit {0})
open_new request none claims = (ok tt, insert request "" claims)
open_new request (some _) claims = fail claim_error "REQUEST_ALREADY_CONSUMED_OR_UNCERTAIN" claims

unfoldable pub open_claim : String → Effect Claims (Unit {0})
unfolding insert lookup
open_claim request claims = open_new request (lookup request claims) claims

-- Up to the opened file.
unfoldable pub begin_claim : Checks → Json → Effect Claims (Unit {0})
unfolding validate_metadata open_claim
begin_claim checks metadata = do
  lift (validate_metadata metadata)
  lift checks.enter
  open_claim (request_of metadata)

abbrev pub store_bytes : String → String → Result (Unit {0}) → Effect Claims (Unit {0})
store_bytes request torn (ok _) claims = (ok tt, claims)
store_bytes request torn (raised exc) claims = (raised exc, insert request torn claims)

-- The block of the opened file.
unfoldable pub write_claim : Checks → String → String → Effect Claims (Unit {0})
unfolding insert
write_claim checks request payload = do
  lift checks.verify
  store_bytes request checks.torn checks.write
  (λ claims. (ok tt, insert request payload claims))
  fail_if (not checks.is_regular) claim_error "CLAIM_FILE_REJECTED"

abbrev pub holds_bytes : String → Option String → Bool
holds_bytes payload none = false
holds_bytes payload (some observed) = observed == payload

-- From the first look at the file to the end.
unfoldable pub read_back : Checks → String → String → Effect Claims (Unit {0})
unfolding lookup
read_back checks request payload = do
  is_same ← lift checks.reopen
  (λ claims.
      fail_if (not (is_same && holds_bytes payload (lookup request claims))) claim_error
        "CLAIM_READBACK_FAILED" claims)
  lift checks.leave

-- `dumps` is json.dumps in ASCII, of a dict whose keys are sorted.
unfoldable pub claim : (Json → String) → Checks → Json → Effect Claims Claimed
unfolding begin_claim write_claim read_back
claim dumps checks metadata = do
  begin_claim checks metadata
  write_claim checks (request_of metadata) (dumps (receipt_of metadata))
  read_back checks (request_of metadata) (dumps (receipt_of metadata))
  pure (record { request_id = request_of metadata })
