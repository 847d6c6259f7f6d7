-- ===== src/Watchdog/Install/Taken.antt =====
-- What install has put in place is taken by load_installed_metadata.
use desktop_pc24x7_runtime.Prelude.{
  ℕ, ◌≡◌, refl, ap, sym, ◌∙◌, subst, Bool, true, false, not, Option, List, String, ◌==◌, eq_refl,
  contains, arith,
}
use desktop_pc24x7_runtime.Json.{Json, get, field_of, is_dict, text}
use desktop_pc24x7_runtime.Result.{Result, ok, raised, succeeded, watchdog_error}
use desktop_pc24x7_runtime.Effect.{Effect, resume, fail_if, ◌>>=◌, ◌>>◌}
use desktop_pc24x7_runtime.Text.{Python, str_or_empty}
use desktop_pc24x7_runtime.Broker.Comment.{get_or_raise}
use desktop_pc24x7_runtime.Watchdog.Install.{
  Disk, holds, Place, is_sha, release_of, watchdog_of, check_installed, load_installed_metadata,
  path_of, check_root, check_host,
}
use desktop_pc24x7_runtime.Watchdog.Install.Installer.{
  Desk, Installer, Installed, outside, confirm_text, metadata_of, after_runner, install,
}
use desktop_pc24x7_runtime.Watchdog.Install.Loadable.{
  InPlace, IsInstalled, after_runner-IsInstalled,
}

-- The paths given are resolved and not empty, the SHA in small letters is a SHA, the root is the governed
-- one, and a host that require_windows_desktop lets pass is one that the loading lets pass.
pub record IsSettled {V : Type 0} (place : Place) (installer : Installer V)
    (source_sha python_executable runtime_root : String) : Type 0 where
  pub str : (s : String) → (place.python).str (text s) ≡ s
  pub path :
      place.resolve (place.join runtime_root "metadata.json")
      ≡ place.join runtime_root "metadata.json"
  pub root : place.resolve runtime_root ≡ runtime_root
  pub root_given : (runtime_root == "") ≡ false
  pub release :
      place.resolve (release_of place runtime_root source_sha)
      ≡ release_of place runtime_root source_sha
  pub release_given : (release_of place runtime_root source_sha == "") ≡ false
  pub python : place.resolve (place.resolve python_executable) ≡ place.resolve python_executable
  pub python_given : (place.resolve python_executable == "") ≡ false
  pub sha : is_sha (place.lower source_sha) ≡ true
  pub sha_given : (place.lower source_sha == "") ≡ false
  pub lower : place.lower (place.lower source_sha) ≡ place.lower source_sha
  pub governed : check_root place runtime_root ≡ ok tt
  pub hosts :
      (w v : V) (host : String)
      → installer.require_windows_desktop w ≡ (ok host, v)
      → ((host == "") ≡ false) × (check_host place ((place.python).strip host) ≡ ok tt)

text_given :
    (python : Python) (s : String)
    → python.str (text s) ≡ s
    → (s == "") ≡ false
    → str_or_empty python (text s) ≡ s
unfolding str_or_empty
text_given python s same given = rw (given, same)

-- What makes check_installed content with a dict.
check_installed-ok :
    (place : Place) (files : List String) (metadata : Json)
    (runtime_root release_root sha host python : String)
    → path_of place "runtime_root" metadata ≡ runtime_root
    → path_of place "release_root" metadata ≡ release_root
    → path_of place "python_executable" metadata ≡ python
    → str_or_empty place.python (get "source_sha" metadata) ≡ sha
    → str_or_empty place.python (get "host" metadata) ≡ host
    → is_sha sha ≡ true
    → release_root ≡ release_of place runtime_root sha
    → check_host place ((place.python).strip host) ≡ ok tt
    → check_root place runtime_root ≡ ok tt
    → contains files (watchdog_of place release_root) ≡ true
    → contains files python ≡ true
    → contains files (place.join runtime_root "run.py") ≡ true
    → check_installed place (place.join runtime_root "metadata.json") false files metadata ≡ ok tt
unfolding check_installed
check_installed-ok place files metadata runtime_root release_root sha host python e1 e2 e3 e4 e5 is
      named allowed governed w p l =
    ground (arith, eq_refl (place.join runtime_root "metadata.json"), eq_refl release_root)

load_installed_metadata-ok :
    (place : Place) (path : String) (disk : Disk) (metadata : Json)
    → disk.metadata ≡ holds metadata
    → is_dict metadata ≡ true
    → check_installed place (place.resolve path) false disk.files metadata ≡ ok tt
    → load_installed_metadata place path false disk ≡ ok metadata
unfolding load_installed_metadata get_or_raise
load_installed_metadata-ok place path disk metadata written d checked = ground arith

module _ {V : Type 0} (place : Place) (installer : Installer V)
    (source_sha python_executable runtime_root : String) (interval : ℕ)
    (settled : IsSettled place installer source_sha python_executable runtime_root) where
  InPlace-taken :
      (host runner now : String) (disk : Disk)
      → (host == "") ≡ false
      → check_host place ((place.python).strip host) ≡ ok tt
      → InPlace
          (metadata_of place installer host
            (place.lower source_sha)
            runtime_root
            (release_of place runtime_root source_sha)
            (place.resolve python_executable)
            runner
            interval
            now)
          (watchdog_of place (release_of place runtime_root source_sha))
          (place.join runtime_root "run.py")
          (place.resolve python_executable)
          disk
      → load_installed_metadata place (place.join runtime_root "metadata.json") false disk
        ≡ ok (
            metadata_of place installer host
              (place.lower source_sha)
              runtime_root
              (release_of place runtime_root source_sha)
              (place.resolve python_executable)
              runner
              interval
              now)
  unfolding get field_of
  InPlace-taken host runner now disk given authorized p =
      let metadata =
        metadata_of place installer host (place.lower source_sha) runtime_root
          (release_of place runtime_root source_sha) (place.resolve python_executable) runner
          interval now in
      load_installed_metadata-ok place (place.join runtime_root "metadata.json") disk metadata
        p.written refl
        (subst (λ path. check_installed place path false disk.files metadata ≡ ok tt)
          (sym settled.path)
          (check_installed-ok place disk.files metadata runtime_root
            (release_of place runtime_root source_sha) (place.lower source_sha) host
            (place.resolve python_executable)
            (ap place.resolve
                (text_given place.python runtime_root (settled.str runtime_root) settled.root_given)
              ∙ settled.root)
            (ap place.resolve (
                text_given place.python (release_of place runtime_root source_sha)
                  (settled.str (release_of place runtime_root source_sha)) settled.release_given)
              ∙ settled.release)
            (ap place.resolve (
                text_given place.python (place.resolve python_executable)
                  (settled.str (place.resolve python_executable)) settled.python_given)
              ∙ settled.python)
            (text_given place.python (place.lower source_sha) (settled.str (place.lower source_sha))
              settled.sha_given)
            (text_given place.python host (settled.str host) given) settled.sha
            (ap (λ sha. place.join (place.join runtime_root "releases") sha) (sym settled.lower))
            authorized settled.governed p.has_watchdog p.has_python p.has_launcher))

  -- metadata.json for this commit, root, Python and interval.
  abbrev pub written_for : String → String → String → Json
  written_for host runner now =
      metadata_of place installer host (place.lower source_sha) runtime_root
        (release_of place runtime_root source_sha) (place.resolve python_executable) runner interval
        now

  after_host-taken :
      (host : String) (outcome : Result Installed × Desk V)
      → (host == "") ≡ false
      → check_host place ((place.python).strip host) ≡ ok tt
      → IsInstalled place installer source_sha python_executable runtime_root interval host outcome
      → succeeded outcome.0 ≡ true
      → (runner : String) × (now : String) × (load_installed_metadata place
            (place.join runtime_root "metadata.json")
            false
            outcome.1.disk
          ≡ ok (written_for host runner now))
  after_host-taken host (ok installed, after) given authorized (runner, now, p) h =
      (runner, now, InPlace-taken host runner now after.disk given authorized p)
  after_host-taken host (raised exc, after) given authorized p h = cc

  abbrev IsTaken : Result Installed × Desk V → Type 0
  IsTaken outcome =
      succeeded outcome.0 ≡ true
      → (host : String) × (runner : String) × (now : String) × (load_installed_metadata place
            (place.join runtime_root "metadata.json") false outcome.1.disk
          ≡ ok (written_for host runner now))

  install-IsTaken :
      (source_root confirm : String) (runner_home : Option String) (desk : Desk V)
      → contains (desk.disk).files (place.resolve python_executable) ≡ true
      → IsTaken (
          install place installer source_root source_sha python_executable runner_home runtime_root
            interval confirm desk)
  unfolding install
  install-IsTaken source_root confirm runner_home desk python =
      first (not (confirm == confirm_text))
    where
      with_runner : String → Effect (Desk V) Installed
      with_runner host =
          outside (installer.discover_runner_home runner_home)
          >>= after_runner place installer source_root source_sha python_executable runtime_root
              interval host

      with_host : String → Effect (Desk V) Installed
      with_host host =
          fail_if (not (is_sha source_sha)) watchdog_error "source_sha inválido" >> with_runner host

      begin : Effect (Desk V) Installed
      begin = outside installer.require_windows_desktop >>= with_host

      fourth :
          (host : String)
          → (host == "") ≡ false
          → check_host place ((place.python).strip host) ≡ ok tt
          → (rest : V) (found : Result String × V)
          → IsTaken (
              resume
                (found.0, record { disk = desk.disk; rest = found.1 })
                (after_runner place installer source_root source_sha python_executable runtime_root
                  interval host))
      fourth host given authorized rest (ok runner, v) h =
          let (found, now, loads) =
            after_host-taken host
              (after_runner place installer source_root source_sha python_executable runtime_root
                interval host runner (record { disk = desk.disk; rest = v }))
              given authorized
              (after_runner-IsInstalled place installer source_sha python_executable runtime_root
                interval source_root host runner (record { disk = desk.disk; rest = v }) python)
              h in
          (host, found, now, loads)
      fourth host given authorized rest (raised exc, v) h = cc

      third :
          (host : String)
          → (host == "") ≡ false
          → check_host place ((place.python).strip host) ≡ ok tt
          → (v : V) (bad : Bool)
          → IsTaken (
              resume
                (fail_if bad watchdog_error "source_sha inválido"
                  (record { disk = desk.disk; rest = v }))
                (λ done. with_runner host))
      third host given authorized v true = λ h. cc
      third host given authorized v false =
          fourth host given authorized v (installer.discover_runner_home runner_home v)

      second_step :
          (required : Result String × V)
          → installer.require_windows_desktop desk.rest ≡ required
          → IsTaken (resume (required.0, record { disk = desk.disk; rest = required.1 }) with_host)
      second_step (raised exc, v) e = λ h. cc
      second_step (ok host, v) e =
          let (given, authorized) = settled.hosts desk.rest v host e in
          third host given authorized v (not (is_sha source_sha))

      first :
          (bad : Bool)
          → IsTaken
              (resume (fail_if bad watchdog_error "confirmação inválida" desk) (λ done. begin))
      first true = λ h. cc
      first false = second_step (installer.require_windows_desktop desk.rest) refl

  -- Let the root given be the governed one, and any host that require_windows_desktop names be one that
  -- the loading authorises; let the paths given be resolved and not empty, the SHA a SHA, and Python a
  -- file. After an installation that ended well, whether the task could be registered at once or waits
  -- for the elevated prompt, the loading takes metadata.json, although it looks for the release's
  -- scripts, the launcher and Python on the disk, and returns what the installation wrote: the metadata
  -- of the commit given in small letters, its release, the root, Python and the interval.
  pub install-load_installed_metadata :
      (source_root confirm : String) (runner_home : Option String) (desk : Desk V)
      → contains (desk.disk).files (place.resolve python_executable) ≡ true
      → succeeded
          (install place installer source_root source_sha python_executable runner_home runtime_root
            interval confirm desk).0
        ≡ true
      → (host : String) × (runner : String) × (now : String) × (load_installed_metadata place
            (place.join runtime_root "metadata.json")
            false
            (install place installer source_root source_sha python_executable runner_home
              runtime_root interval confirm desk).1.disk
          ≡ ok (written_for host runner now))
  install-load_installed_metadata source_root confirm runner_home desk python ended =
      install-IsTaken source_root confirm runner_home desk python ended
