-- ===== src/Broker/Installation.antt =====
-- The broker's installation on the disk, its task and its fallback at logon: load_installed_metadata,
-- register_task, task_status, the autostart functions, and register_task_from_metadata.
pub mod Scheduler
pub mod Autostart
pub mod Register
pub mod Readback
use desktop_pc24x7_runtime.Prelude.{
  ℕ, Bool, true, false, not, ◌&&◌, ◌||◌, Option, none, some, List, [], ◌∷◌, String, ◌==◌,
  if◌then◌else◌, all,
}
use desktop_pc24x7_runtime.Json.{Json, get}
use desktop_pc24x7_runtime.Result.{
  Result, ok, raise, raise_if, broker_error, value_error, ◌>>=◌, ◌>>◌,
}
use desktop_pc24x7_runtime.Effect.{Effect}
use desktop_pc24x7_runtime.Text.{Python, str_or_empty}
use desktop_pc24x7_runtime.Broker.Comment.{get_or_raise}
use desktop_pc24x7_runtime.Broker.Activation.{Tools, validate_sha}

-- metadata.json: not there, not JSON, or a value.
pub data MetadataFile : Type 0 where
  missing invalid : MetadataFile
  holds : Json → MetadataFile

-- A task definition as the scheduler keeps it.
pub record Task : Type 0 where
  pub triggers : List ℕ
  pub program : String
  pub arguments : String
  pub directory : String
  pub user : String
  pub logon_type : ℕ
  pub run_level : ℕ
  pub is_enabled : Bool

-- A value of the Run key; `is_text` is value_type == REG_SZ.
pub record RunValue : Type 0 where
  pub is_text : Bool
  pub value : String

-- What the functions of this part read and write; other processes may, too.
pub record Desk (V : Type 0) : Type 0 where
  pub metadata : MetadataFile
  pub autostart : Option RunValue
  pub task : Option Task
  pub rest : V

-- The opening of the Run key.
pub data KeyAccess : Type 0 where
  opens not_there denied : KeyAccess

-- The host.
pub record Site (V : Type 0) : Type 0 where
  pub is_windows : Bool
  pub hostname : String
  -- Path(text).resolve(), path / relative, and path.parent.
  pub resolve : String → String
  pub join : String → String → String
  pub parent : String → String
  -- default_runtime_root().resolve(), and Path(__file__).resolve().
  pub default_root : Result String
  pub this_file : String
  pub is_file : String → V → Bool
  pub list2cmdline : List String → String
  pub current_user_id : String
  pub has_winreg : Bool
  pub run_key : V → KeyAccess
  -- CreateKeyEx, SetValueEx of a text, and what QueryValueEx then finds; none is an OSError.
  pub set_and_query : String → Desk V → Option RunValue × Desk V
  -- Schedule.Service: whether it answers, and what a registration changes; some is repr(exc).casefold().
  pub scheduler_answers : V → Bool
  pub register_definition : Task → V → Option String × V
  -- `value in text`
  pub occurs : String → String → Bool
  -- schtasks.exe /Run.
  pub run_task : V → ℕ × V
  -- _acquire_metadata_lock may wait while others write; _release_broker_lock.
  pub acquire_lock : Effect (Desk V) (Unit {0})
  pub release_lock : V → V

-- What load_installed_metadata returns.
pub record Installed : Type 0 where
  pub metadata : Json
  pub metadata_path : String
  pub runtime_root : String
  pub release_root : String
  pub release_broker : String
  pub launcher : String
  pub python_executable : String

abbrev pub expected_host : String
expected_host = "DESKTOP-PDQK954"

abbrev reject_if : Bool → String → Result (Unit {0})
reject_if test message = raise_if test broker_error message

module _ {V : Type 0} (tools : Tools V) (site : Site V) where
  unfoldable pub require_windows_desktop : Result String
  require_windows_desktop = do
    reject_if (not site.is_windows) "Windows obrigatório"
    reject_if (not ((tools.python).casefold site.hostname == (tools.python).casefold expected_host))
        "host não autorizado"
    ok site.hostname

  abbrev read_metadata : MetadataFile → Result Json
  read_metadata missing = raise broker_error "metadata do broker ausente"
  read_metadata invalid = raise value_error "JSONDecodeError"
  read_metadata (holds metadata) = ok metadata

  -- Path(str(metadata.get(key) or "")).resolve()
  abbrev pub path_of : String → Json → String
  path_of key metadata = site.resolve (str_or_empty tools.python (get key metadata))

  abbrev pub check_root : String → Result (Unit {0})
  check_root runtime_root =
      if site.is_windows
      then (do
        default ← site.default_root
        reject_if (not (runtime_root == default)) "runtime_root fora do caminho governado")
      else ok tt

  -- From the dict on. `path` is the metadata's resolved path.
  unfoldable pub check_installed : String → Bool → V → Json → Result Installed
  unfolding validate_sha str_or_empty
  check_installed path require_current_release disk metadata =
      let runtime_root = path_of "runtime_root" metadata in
      let release_root = path_of "release_root" metadata in
      let release_broker = site.join (site.join release_root "scripts") "desktop_admin_broker.py" in
      let launcher = site.join runtime_root "run.py" in
      let python_executable = path_of "python_executable" metadata in
      do
        sha ← validate_sha tools (str_or_empty tools.python (get "source_sha" metadata))
        reject_if (not (path == site.join runtime_root "metadata.json"))
            "metadata fora do runtime governado"
        check_root runtime_root
        reject_if (not (release_root == site.join (site.join runtime_root "releases") sha))
            "release_root não corresponde ao source_sha"
        reject_if
            (not (
              all (λ file. site.is_file file disk)
                (release_broker ∷ launcher ∷ python_executable ∷ [])))
            "arquivo instalado ausente"
        reject_if (require_current_release && not (site.resolve release_broker == site.this_file))
            "subcomando elevado deve executar da release imutável"
        ok (record {
          metadata = metadata;
          metadata_path = path;
          runtime_root = runtime_root;
          release_root = release_root;
          release_broker = release_broker;
          launcher = launcher;
          python_executable = python_executable;
        })

  unfoldable pub load_installed_metadata : String → Bool → Desk V → Result Installed
  unfolding get_or_raise check_installed
  load_installed_metadata metadata_path require_current_release desk = do
    metadata ← read_metadata desk.metadata
    runtime_root ← get_or_raise "runtime_root" metadata
    check_installed (site.resolve metadata_path) require_current_release desk.rest metadata
