-- ===== src/Watchdog/Install.antt =====
-- install and load_installed_metadata of the watchdog, over a disk of its files.
pub mod Installer
pub mod Loadable
pub mod Taken
use Prim.Native.Char.{code}
use Prim.Native.String.{count}
use desktop_pc24x7_runtime.Prelude.{
  ℕ, Bool, true, false, not, ◌&&◌, ◌||◌, Option, none, some, List, [], ◌∷◌, String, ◌==◌, eqb, leb,
  all, contains, if◌then◌else◌,
}
use desktop_pc24x7_runtime.Json.{Json, num, text, bool, object, get}
use desktop_pc24x7_runtime.Result.{
  Result, ok, raise, raise_if, watchdog_error, value_error, ◌>>=◌, ◌>>◌,
}
use desktop_pc24x7_runtime.Text.{Python, str_or_empty}
use desktop_pc24x7_runtime.Broker.Comment.{get_or_raise}

-- metadata.json: not there, not JSON, or a value.
pub data MetadataFile : Type 0 where
  missing invalid : MetadataFile
  holds : Json → MetadataFile

-- The files that are there, and metadata.json.
pub record Disk : Type 0 where
  pub files : List String
  pub metadata : MetadataFile

pub record Place : Type 0 where
  pub python : Python
  -- str.lower
  pub lower : String → String
  -- Path(text).resolve(), and path / name.
  pub resolve : String → String
  pub join : String → String → String
  -- default_runtime_root().resolve(), and Path(__file__).resolve().
  pub default_root : Result String
  pub this_file : String
  pub is_windows : Bool
  pub hostname : String
  -- authorized_desktop_profile: what it refuses.
  pub authorized : String → Result (Unit {0})

abbrev pub in_range : ℕ → ℕ → ℕ → Bool
in_range low high c = leb low c && leb c high

-- Whether every character is one of 0123456789abcdefABCDEF.
unfoldable pub is_hexadecimal : String → Bool
is_hexadecimal String.[] = true
is_hexadecimal (String.◌∷◌ c s) =
    let rest = is_hexadecimal s in
    (in_range b'0' b'9' (code c) || (in_range b'a' b'f' (code c) || in_range b'A' b'F' (code c)))
    && rest

unfoldable pub is_sha : String → Bool
unfolding is_hexadecimal
is_sha sha = eqb (count sha) 40 && is_hexadecimal sha

abbrev pub reject_if : Bool → String → Result (Unit {0})
reject_if test message = raise_if test watchdog_error message

abbrev pub read_metadata : MetadataFile → Result Json
read_metadata missing = raise watchdog_error "metadata do watchdog ausente"
read_metadata invalid = raise value_error "JSONDecodeError"
read_metadata (holds metadata) = ok metadata

module _ (place : Place) where
  open place use {join, resolve}

  abbrev pub path_of : String → Json → String
  path_of key metadata = resolve (str_or_empty place.python (get key metadata))

  abbrev pub release_of : String → String → String
  release_of runtime_root sha = join (join runtime_root "releases") (place.lower sha)

  abbrev pub watchdog_of : String → String
  watchdog_of release_root = join (join release_root "scripts") "desktop_control_plane_watchdog.py"

  abbrev pub check_root : String → Result (Unit {0})
  check_root runtime_root =
      if place.is_windows
      then (do
        default ← place.default_root
        reject_if (not (runtime_root == default))
            "runtime_root fora do caminho governado do Desktop")
      else ok tt

  abbrev pub check_host : String → Result (Unit {0})
  check_host host = do
    place.authorized host
    reject_if
        (place.is_windows
          && not ((place.python).casefold host == (place.python).casefold place.hostname))
        "metadata pertence a outro host autorizado"

  -- From the dict on. `path` is the metadata's resolved path.
  unfoldable pub check_installed : String → Bool → List String → Json → Result (Unit {0})
  unfolding is_sha str_or_empty
  check_installed path require_current_release files metadata =
      let runtime_root = path_of "runtime_root" metadata in
      let release_root = path_of "release_root" metadata in
      let source_sha = str_or_empty place.python (get "source_sha" metadata) in
      do
        reject_if (not (path == join runtime_root "metadata.json"))
            "metadata fora do runtime governado"
        reject_if (not (is_sha source_sha)) "source_sha da instalação inválido"
        reject_if (not (release_root == release_of runtime_root source_sha))
            "release_root não corresponde ao source_sha governado"
        check_host ((place.python).strip (str_or_empty place.python (get "host" metadata)))
        check_root runtime_root
        reject_if
            (not (
              all (contains files) (
                watchdog_of release_root
                ∷ path_of "python_executable" metadata
                ∷ join runtime_root "run.py"
                ∷ [])))
            "arquivo instalado ausente"
        reject_if
            (require_current_release && not (resolve (watchdog_of release_root) == place.this_file))
            "subcomando elevado deve executar da release imutável instalada"

  -- What it returns is made of the metadata alone.
  unfoldable pub load_installed_metadata : String → Bool → Disk → Result Json
  unfolding get_or_raise check_installed
  load_installed_metadata metadata_path require_current_release disk = do
    metadata ← read_metadata disk.metadata
    runtime_root ← get_or_raise "runtime_root" metadata
    check_installed (resolve metadata_path) require_current_release disk.files metadata
    ok metadata
