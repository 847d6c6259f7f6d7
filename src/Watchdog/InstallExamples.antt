-- ===== src/Watchdog/InstallExamples.antt =====
-- An installation on a disk that holds the scripts and Python, without the right to register the task.
use Prim.Native.String.{◌++◌}
use desktop_pc24x7_runtime.Prelude.{
  ◌*◌, ◌≡◌, refl, ap, subst, ◌==◌, true, false, none, some, [], ◌∷◌, String,
}
use desktop_pc24x7_runtime.Json.{Json, null, text}
use desktop_pc24x7_runtime.Result.{Result, ok, ok-injective, watchdog_error}
use desktop_pc24x7_runtime.Effect.{fail}
use desktop_pc24x7_runtime.Text.{Python, second}
use desktop_pc24x7_runtime.Watchdog.Install.{
  missing, Place, check_host, load_installed_metadata, is_sha, is_hexadecimal,
}
use desktop_pc24x7_runtime.Watchdog.Install.Installer.{
  Desk, Installer, confirm_text, install, copy_release, copy_required,
}
use desktop_pc24x7_runtime.Watchdog.Install.Taken.{
  written_for, IsSettled, install-load_installed_metadata,
}

abbrev str : Json → String
str (text s) = s
str _ = ""

abbrev python : Python
python = record {
  str = str;
  casefold = λ s. s;
  upper = λ s. s;
  strip = λ s. s;
  fromisoformat = λ s. some (record { aware = true; instant = 1000 * second });
  isoformat = λ n. "1970-01-01T00:16:40+00:00";
  isalnum = λ c. true;
}

abbrev hostname : String
hostname = "DESKTOP-PDQK954"

abbrev place : Place
place = record {
  python = python;
  lower = λ s. s;
  resolve = λ path. path;
  join = λ path name. path ++ ("/" ++ name);
  default_root = ok "D:/watchdog";
  this_file = "D:/source/scripts/desktop_control_plane_watchdog.py";
  is_windows = true;
  hostname = hostname;
  authorized = λ host. ok tt;
}

abbrev installer : Installer (Unit {0})
installer = record {
  require_windows_desktop = λ v. (ok hostname, v);
  discover_runner_home = λ home v. (ok "D:/runner", v);
  register_boot_task =
      λ python_executable launcher v. fail watchdog_error "task_scheduler_access_denied" v;
  run_watchdog_task = λ v. (ok null, v);
  task_status = λ v. (ok null, v);
  now_iso = λ v. "1970-01-01T00:16:40+00:00";
}

abbrev sha : String
sha = "8aa192cbf7712c1da72a4b37dcb3ad3693ae5130"

abbrev desk : Desk (Unit {0})
desk = record {
  disk = record {
    files =
        "D:/python.exe" ∷ "D:/source/scripts/pc24x7_rdc_recovery.py"
        ∷ "D:/source/scripts/desktop_control_plane_watchdog_uac_launcher.py"
        ∷ "D:/source/scripts/pc24x7_host_policy.py" ∷ [];
    metadata = missing;
  };
  rest = tt;
}

settled : IsSettled place installer sha "D:/python.exe" "D:/watchdog"
unfolding is_sha is_hexadecimal
settled = record {
  str = λ s. refl;
  path = refl;
  root = refl;
  root_given = refl;
  release = refl;
  release_given = refl;
  python = refl;
  python_given = refl;
  sha = refl;
  sha_given = refl;
  lower = refl;
  governed = refl;
  hosts = λ w v host e.
      subst (λ h. ((h == "") ≡ false) × (check_host place ((place.python).strip h) ≡ ok tt))
        (ok-injective (ap (λ (p : Result String × Unit {0}). p.0) e)) (refl, refl);
}

install-load_installed_metadata_example :
    (host : String) × (runner : String) × (now : String) × (load_installed_metadata place
        "D:/watchdog/metadata.json" false
        (install place installer "D:/source" sha "D:/python.exe" none "D:/watchdog" 30 confirm_text
          desk).1.disk
      ≡ ok (
          written_for place installer sha "D:/python.exe" "D:/watchdog" 30 settled host runner now))
unfolding install copy_release copy_required is_sha is_hexadecimal
install-load_installed_metadata_example =
    install-load_installed_metadata place installer sha "D:/python.exe" "D:/watchdog" 30 settled
      "D:/source" confirm_text none desk refl refl
