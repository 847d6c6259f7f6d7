-- ===== src/Watchdog/Site.antt =====
-- What a cycle of the watchdog calls, beyond the host's processes, and the hosts that it may run on.
use desktop_pc24x7_runtime.Prelude.{ℕ, Option, [], ◌∷◌, String, Bool, not, contains, if◌then◌else◌}
use desktop_pc24x7_runtime.Json.{Json}
use desktop_pc24x7_runtime.Result.{Result, ok, raised, watchdog_error, Exception, ExceptionClass}
use desktop_pc24x7_runtime.Effect.{Effect, pure, fail, fail_if, ◌>>=◌, ◌>>◌}
use desktop_pc24x7_runtime.HostPolicy.{HostProfile, authorized_host}
use desktop_pc24x7_runtime.Rdc.Claim.{ClaimFile}
use desktop_pc24x7_runtime.Watchdog.Host.{Host}

-- The evidence file of the recovery script.
pub data Evidence : Type 0 where
  absent : Evidence
  -- OSError or JSONDecodeError.
  invalid : Evidence
  -- Any other exception.
  broken : Exception → Evidence
  found : Json → Evidence

-- subprocess.CompletedProcess of the recovery script.
pub record Run : Type 0 where
  pub returncode : ℕ
  pub stdout : String
  pub stderr : String

-- The dict of metadata.json. `additional_runner_profiles` is [] and `rdc_recovery_enabled` is none
-- where the key is not there.
pub record Metadata : Type 0 where
  pub runtime_root : String
  pub release_root : String
  pub runner_home : String
  pub source_sha : String
  pub additional_runner_profiles : Json
  pub rdc_recovery_enabled : Option Json

pub record Site (W : Type 0) : Type 0 where
  pub host : Host W
  pub is_windows : Bool
  pub hostname : String
  pub is_absolute : String → Bool
  -- url.rstrip("/")
  pub rstrip_slash : String → String
  -- text[-500:]
  pub tail : String → String
  pub class_name : ExceptionClass → String
  -- _inventory_path of a directory, and _inventory_json of a file.
  pub inventory_directory : String → Effect W Unit
  pub inventory_json : String → Effect W Json
  -- read_rdc_claim: the file, and the time in microseconds.
  pub claim_file : W → ClaimFile
  pub now : W → ℕ
  pub run_recovery : String → Effect W Run
  pub evidence_file : W → Evidence

module _ {W : Type 0} (site : Site W) where
  abbrev is_desktop : String → Bool
  is_desktop role = contains ("desktop-primary" ∷ "desktop-secondary" ∷ []) role

  abbrev pub as_watchdog_error : Result HostProfile → Effect W HostProfile
  as_watchdog_error (ok profile) =
      if is_desktop profile.role
      then pure profile
      else fail watchdog_error "host não autorizado para watchdog desktop"
  as_watchdog_error (raised exc) = fail watchdog_error exc.message

  unfoldable pub authorized_desktop_profile : String → Effect W HostProfile
  unfolding authorized_host
  authorized_desktop_profile hostname =
      as_watchdog_error (authorized_host (site.host).python site.hostname hostname)

  unfoldable pub require_windows_desktop : Effect W String
  unfolding authorized_desktop_profile
  require_windows_desktop = do
    fail_if (not site.is_windows) watchdog_error "Windows obrigatório"
    profile ← authorized_desktop_profile site.hostname
    pure site.hostname
