-- ===== src/Capacity/Root.antt =====
-- `windows_private_root` of the claim, up to its yield: the directories above the audit root are held, and
-- the access lists of all of them checked.
pub mod Private
use Prim.Native.Nat.{◌/◌, ◌%◌, ◌^◌}
use desktop_pc24x7_runtime.Prelude.{
  ℕ, ◌+◌, ◌*◌, Bool, true, false, not, ◌&&◌, ◌||◌, Option, none, some, List, [], ◌∷◌, ◌++◌, length,
  any, ltb, leb, eqb, String, ◌==◌, if◌then◌else◌,
}
use desktop_pc24x7_runtime.Result.{Result, ok, raised, ◌>>=◌, ◌>>◌}
use desktop_pc24x7_runtime.Capacity.Metadata.{require}
use desktop_pc24x7_runtime.Capacity.File.{Info, ordinary}

-- What Windows tells about the identities; a SID is a text.
pub record Identity : Type 0 where
  pub current : String
  pub installer : String
  pub equal_sid : String → String → Bool
  -- IsWellKnownSid: 22 is the system, 26 the administrators.
  pub is_well_known : String → ℕ → Bool

-- An entry of an access list; `is_there` is the result of GetAce.
pub record Ace : Type 0 where
  pub is_there : Bool
  pub kind : ℕ
  pub flags : ℕ
  pub size : ℕ
  pub mask : ℕ
  pub sid : String

-- What GetSecurityInfo gives for a handle. None is a null pointer.
pub record Security : Type 0 where
  pub is_available : Bool
  pub owner : Option String
  pub dacl : Option (List Ace)

-- What Windows answers for one directory, before and after it is opened.
pub record Directory : Type 0 where
  pub before : Info
  pub is_opened : Bool
  pub observed : Info
  pub has_information : Bool
  pub is_directory : Bool
  pub is_reparse : Bool
  pub index_high : ℕ
  pub index_low : ℕ
  pub security : Security

-- What it answers for the process and the audit root: os.name and the path, the volume, and the token.
pub record Machine : Type 0 where
  pub is_local : Bool
  pub is_fixed : Bool
  pub is_ntfs : Bool
  pub has_token : Bool
  pub token_size : ℕ
  pub has_identity : Bool
  pub has_installer : Bool
  pub ancestors : List Directory
  pub root : Directory

-- value & 2 ** bit
abbrev has_bit : ℕ → ℕ → Bool
has_bit value bit = eqb ((value / (2 ^ bit)) % 2) 1

-- mask & 0x500D0142
unfoldable pub grants_mutation : ℕ → Bool
grants_mutation mask = any (has_bit mask) (1 ∷ 6 ∷ 8 ∷ 16 ∷ 18 ∷ 19 ∷ 28 ∷ 30 ∷ [])

-- flags & 0x08
unfoldable pub is_inherit_only : ℕ → Bool
is_inherit_only flags = has_bit flags 3

module _ (identity : Identity) where
  abbrev pub ours : String → Bool
  ours sid = identity.equal_sid sid identity.current

  abbrev pub trusted : String → Bool
  trusted sid =
      ours sid
      || (identity.is_well_known sid 22
          || (identity.is_well_known sid 26 || identity.equal_sid sid identity.installer))

  -- An entry of kind 0 grants, and one of kind 1 denies.
  abbrev check_grant : Bool → Ace → Result (Unit {0})
  check_grant true ace = require (trusted ace.sid) "DACL_OTHER_PRINCIPAL_REJECTED"
  check_grant false ace =
      if not (is_inherit_only ace.flags) && not (trusted ace.sid)
      then require (not (grants_mutation ace.mask)) "ANCESTOR_MUTATION_GRANT_REJECTED"
      else ok tt

  unfoldable pub check_ace : Bool → Ace → Result (Unit {0})
  check_ace strict ace = do
    require ace.is_there "DACL_ACE_UNAVAILABLE"
    require ((eqb ace.kind 0 || eqb ace.kind 1) && leb 12 ace.size) "DACL_ACE_UNSUPPORTED"
    if eqb ace.kind 0 then check_grant strict ace else ok tt

  abbrev pub is_ours : Ace → Bool
  is_ours ace = eqb ace.kind 0 && ours ace.sid

  -- The loop, with current_allowed.
  unfoldable pub check_aces : Bool → List Ace → Bool → Result Bool
  check_aces strict [] current_allowed = ok current_allowed
  check_aces strict (ace ∷ aces) current_allowed = do
    check_ace strict ace
    check_aces strict aces (current_allowed || is_ours ace)

  abbrev pub is_owner : Bool → Option String → Bool
  is_owner strict none = false
  is_owner true (some owner) = ours owner
  is_owner false (some owner) = trusted owner

  abbrev check_dacl : Bool → Option (List Ace) → Result (Unit {0})
  check_dacl strict none = require false "NULL_DACL_REJECTED"
  check_dacl strict (some aces) = do
    require (ltb 0 (length aces) && leb (length aces) 128) "DACL_INVALID"
    current_allowed ← check_aces strict aces false
    require (not strict || current_allowed) "DACL_CURRENT_IDENTITY_REQUIRED"

  unfoldable pub verify_security : Bool → Security → Result (Unit {0})
  verify_security strict security = do
    require security.is_available "AUDIT_SECURITY_UNAVAILABLE"
    require (is_owner strict security.owner) "AUDIT_OWNER_REJECTED"
    check_dacl strict security.dacl

unfoldable pub pin : Directory → Result (Unit {0})
unfolding ordinary
pin directory = do
  info ← ordinary directory.before true
  require directory.is_opened "AUDIT_DIRECTORY_HANDLE_UNAVAILABLE"
  observed ← ordinary directory.observed true
  require directory.has_information "DIRECTORY_HANDLE_INFO_UNAVAILABLE"
  require
      (directory.is_directory
        && (not directory.is_reparse
            && eqb observed.inode (directory.index_high * 2 ^ 32 + directory.index_low)))
      "DIRECTORY_HANDLE_IDENTITY_REJECTED"

-- The loop over the directories: each in turn, up to the first that is refused.
unfoldable pub each : (Directory → Result (Unit {0})) → List Directory → Result (Unit {0})
each check [] = ok tt
each check (directory ∷ directories) = check directory >> each check directories

unfoldable pub windows_private_root : Identity → Machine → Result (Unit {0})
windows_private_root identity machine = do
  require machine.is_local "LOCAL_WINDOWS_ROOT_REQUIRED"
  require machine.is_fixed "FIXED_LOCAL_VOLUME_REQUIRED"
  require machine.is_ntfs "SUPPORTED_PERSISTENT_FILESYSTEM_REQUIRED"
  require machine.has_token "TOKEN_IDENTITY_UNAVAILABLE"
  require (ltb 0 machine.token_size && leb machine.token_size 65536) "TOKEN_IDENTITY_INVALID"
  require machine.has_identity "TOKEN_IDENTITY_UNAVAILABLE"
  require machine.has_installer "OS_TRUST_SID_UNAVAILABLE"
  each pin (machine.ancestors ++ (machine.root ∷ []))
  each (λ directory. verify_security identity false directory.security) machine.ancestors
  verify_security identity true machine.root.security
