-- ===== src/Broker/Installation/Register/Governed.antt =====
-- The registration from the elevated prompt, from the installation that it starts from to what it leaves.
use desktop_pc24x7_runtime.Prelude.{◌≡◌, true, String}
use desktop_pc24x7_runtime.Json.{Json, get}
use desktop_pc24x7_runtime.Result.{Result, ok}
use desktop_pc24x7_runtime.Text.{str_or_empty}
use desktop_pc24x7_runtime.Broker.Activation.{Tools, validate_sha, task_ready}
use desktop_pc24x7_runtime.Broker.Installation.{Desk, Site, Installed, load_installed_metadata}
use desktop_pc24x7_runtime.Broker.Installation.Scheduler.{register_task, task_status, run_task}
use desktop_pc24x7_runtime.Broker.Installation.Register.Proven.{IsPersisted}

module _ {V : Type 0} (tools : Tools V) (site : Site V) (now_iso : V → String) where
  -- An installation in its place: the release of its commit, with its files there, and this very
  -- process run from it.
  pub record IsGoverned (path : String) (disk : V) (installed : Installed) : Type 0 where
    pub in_place : site.resolve path ≡ site.join installed.runtime_root "metadata.json"
    pub sha : String
    pub named :
        validate_sha tools (str_or_empty tools.python (get "source_sha" installed.metadata))
        ≡ ok sha
    pub release :
        installed.release_root ≡ site.join (site.join installed.runtime_root "releases") sha
    pub launcher : site.is_file installed.launcher disk ≡ true
    pub python : site.is_file installed.python_executable disk ≡ true
    pub own : site.resolve installed.release_broker ≡ site.this_file

  -- From the release that is loaded to what is left in metadata.json.
  pub record IsActivated (path : String) (desk : Desk V) (metadata : Json) (after : Desk V)
      : Type 0 where
    pub installed : Installed
    pub loaded : load_installed_metadata tools site path true desk ≡ ok installed
    pub governed : IsGoverned path desk.rest installed
    pub moment : Desk V
    pub registered :
        (register_task tools site installed.python_executable installed.launcher desk)
        ≡ (ok tt, moment)
    pub observed : Json
    pub started : Json
    pub seen : Desk V
    pub begun : Desk V
    pub looked : task_status tools site moment ≡ (ok observed, seen)
    pub ready : task_ready tools observed ≡ true
    pub ran : run_task tools site seen ≡ (ok started, begun)
    pub persisted :
        IsPersisted tools site now_iso installed.metadata_path observed started metadata after
