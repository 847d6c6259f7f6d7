-- ===== src/Broker/InstallExamples.antt =====
-- An installation in its place, its task and its fallback at logon.
use Prim.Native.String.{◌++◌}
use desktop_pc24x7_runtime.Prelude.{
  ◌*◌, ◌≡◌, refl, true, false, none, some, [], ◌∷◌, String, ◌==◌, if◌then◌else◌,
}
use desktop_pc24x7_runtime.Json.{Json, null, num, text, object, get}
use desktop_pc24x7_runtime.Result.{ok}
use desktop_pc24x7_runtime.Text.{Python, second}
use desktop_pc24x7_runtime.Broker.Activation.{Tools, task_ready, update}
use desktop_pc24x7_runtime.Broker.Installation.{
  holds, Desk, opens, Site, expected_host, require_windows_desktop,
}
use desktop_pc24x7_runtime.Broker.Installation.Scheduler.{
  register_task, task_status, task_dict, task_of, run_task,
}
use desktop_pc24x7_runtime.Broker.Installation.Autostart.{
  autostart_dict, register_user_autostart, user_autostart_status, remove_user_autostart,
}
use desktop_pc24x7_runtime.Broker.Installation.Readback.{
  IsPlain, register_task-task_status, autostart-reads_back,
}
use desktop_pc24x7_runtime.Broker.Installation.Register.{activated}

abbrev str : Json → String
str (text s) = s
str _ = ""

abbrev python : Python
python = record {
  str = str;
  casefold = λ s. if s == "S4U" then "s4u" else s;
  upper = λ s. s;
  strip = λ s. s;
  fromisoformat = λ s. some (record { aware = true; instant = 1000 * second });
  isoformat = λ n. "1970-01-01T00:16:40+00:00";
  isalnum = λ c. true;
}

abbrev tools : Tools (Unit {0})
tools = record {
  python = python;
  equal = λ a b. str (get "source_sha" a) == str (get "source_sha" b);
  lower = λ s. s;
  load_check = λ store. ok tt;
  acquire_lock = λ store. (ok tt, store);
  release_lock = λ v. v;
  task_status = λ store. (ok null, store);
  user_autostart_status = λ store. (ok null, store);
  register_user_autostart = λ store. (ok null, store);
  release_of = λ s. s;
  resolve = λ s. s;
  broker_is_file = λ path v. true;
  launcher_path = "activate.cmd";
}

abbrev release : String
release = "D:/broker/releases/8aa192cbf7712c1da72a4b37dcb3ad3693ae5130"

abbrev site : Site (Unit {0})
site = record {
  is_windows = true;
  hostname = expected_host;
  resolve = λ path. path;
  join = λ path name. path ++ ("/" ++ name);
  parent = λ path. "D:/broker";
  default_root = ok "D:/broker";
  this_file = release ++ "/scripts/desktop_admin_broker.py";
  is_file = λ path v. true;
  list2cmdline = λ words. "python run.py";
  current_user_id = "user";
  has_winreg = true;
  run_key = λ v. opens;
  set_and_query = λ command desk. (
    some (record { is_text = true; value = command }),
    record desk { autostart = some (record { is_text = true; value = command }) },
  );
  scheduler_answers = λ v. true;
  register_definition = λ task v. (none, v);
  occurs = λ needle haystack. false;
  run_task = λ v. (0, v);
  acquire_lock = λ desk. (ok tt, desk);
  release_lock = λ v. v;
}

abbrev now_iso : Unit {0} → String
now_iso v = "1970-01-01T00:16:40+00:00"

abbrev metadata : Json
metadata = object (
    ("runtime_root", text "D:/broker")
    ∷ ("release_root", text release)
    ∷ ("source_sha", text "8aa192cbf7712c1da72a4b37dcb3ad3693ae5130")
    ∷ ("python_executable", text "D:/broker/python.exe")
    ∷ [])

abbrev desk : Desk (Unit {0})
desk = record { metadata = holds metadata; autostart = none; task = none; rest = tt }

plain : IsPlain python
plain = record { str = λ s. refl; s4u = refl; highest = refl }

register_task-task_status_example :
    (status : Json) × ((task_status tools site
        (register_task tools site "D:/broker/python.exe" "D:/broker/run.py" desk).1).0
      ≡ ok status)
    × (task_ready tools status ≡ true)
unfolding register_task require_windows_desktop
register_task-task_status_example =
    register_task-task_status tools site "D:/broker/python.exe" "D:/broker/run.py" desk plain refl
      refl

autostart-reads_back_example :
    ((user_autostart_status tools site "python.exe" "run.py"
        (register_user_autostart tools site "python.exe" "run.py" desk).1).0
      ≡ ok (autostart_dict true true))
    × ((user_autostart_status tools site "python.exe" "run.py"
          (remove_user_autostart tools site desk).1).0
        ≡ ok (autostart_dict false false))
unfolding register_user_autostart remove_user_autostart require_windows_desktop
autostart-reads_back_example =
    autostart-reads_back tools site "python.exe" "run.py" desk (λ command w. (refl, refl)) refl refl
      refl

abbrev observed : Json
observed = task_dict (λ n. "") (task_of tools site "D:/broker/python.exe" "D:/broker/run.py")

abbrev after : Json
after = update (activated observed (object (("run_returncode", num 0) ∷ [])) (now_iso tt)) metadata
