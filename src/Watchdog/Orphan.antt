-- ===== src/Watchdog/Orphan.antt =====
-- The registration of the watchdog's task, and the task file without a task that may stand in its way:
-- _validate_orphan_task_xml to register_task_from_metadata.
pub mod Restored
use desktop_pc24x7_runtime.Prelude.{
  Option, none, some, List, [], ◌∷◌, String, ◌==◌, Bool, true, false, not, ◌&&◌, ◌||◌, insert,
  lookup, if◌then◌else◌,
}
use desktop_pc24x7_runtime.Json.{Json, text, get, is_dict, is_text, object}
use desktop_pc24x7_runtime.Result.{ok, raised, watchdog_error, os_error, Exception}
use desktop_pc24x7_runtime.Effect.{Effect, pure, fail, fail_if, lift, reads, attempt, ◌>>=◌, ◌>>◌}
use desktop_pc24x7_runtime.Text.{Python}

abbrev pub task_name : String
task_name = "\\Automation\\DesktopPc24x7RuntimeWatchdog"

pub data Entry : Type 0 where
  missing : Entry
  -- A directory, a link, or the like.
  irregular : Entry
  regular : String → Entry

-- backups/orphaned-scheduled-task/<digest>: the manifest, if it can be read as JSON, and the task file.
pub record Backup : Type 0 where
  pub manifest : Option Json
  pub file : Entry

-- What the elements of the task's XML hold.
pub record TaskXml : Type 0 where
  pub uri : String
  pub logon_type : String
  pub boot : Bool
  pub command : String
  pub arguments : String

-- The state: the task's file, the backups by digest, and the XML that schtasks.exe prints of the
-- task, if the scheduler knows it.
pub record Disk : Type 0 where
  pub entry : Entry
  pub backups : List (String × Backup)
  pub scheduled : Option String

pub record Tools : Type 0 where
  pub python : Python
  -- ET.fromstring and the look at its elements, of a task file and of what schtasks.exe prints.
  pub parse_task : String → Option TaskXml
  pub sha256 : String → String
  -- _same_file
  pub same_file : String → String → Bool
  -- arguments.strip().strip('"')
  pub unquote : String → String
  pub python_executable : String
  pub launcher : String
  pub invocation_id : String
  pub now_iso : String
  -- register_boot_task, which calls the scheduler.
  pub register_boot_task : Effect Disk Unit

-- The dict of task_status.
pub record TaskStatus : Type 0 where
  pub exists : Bool
  pub trigger_at_startup : Bool
  pub logon_type : String

module _ (tools : Tools) where
  open tools use {python}

  abbrev parsed_status : Option TaskXml → TaskStatus
  parsed_status none = record { exists = true; trigger_at_startup = false; logon_type = "" }
  parsed_status (some xml) = record {
    exists = true;
    trigger_at_startup = xml.boot;
    logon_type = xml.logon_type;
  }

  unfoldable pub task_status : Option String → TaskStatus
  task_status none = record { exists = false; trigger_at_startup = false; logon_type = "" }
  task_status (some xml) = parsed_status (tools.parse_task xml)

  abbrev judge_xml : Option TaskXml → Effect Disk Unit
  judge_xml none = fail watchdog_error "orphan_task_xml_invalid"
  judge_xml (some xml) = do
    fail_if
        (not (xml.uri == task_name)
          || (not (python.casefold xml.logon_type == "s4u") || not xml.boot))
        watchdog_error "orphan_task_contract_mismatch"
    fail_if
        (not (tools.same_file xml.command tools.python_executable)
          || not (tools.same_file (tools.unquote xml.arguments) tools.launcher))
        watchdog_error "orphan_task_action_mismatch"

  unfoldable pub validate_orphan_task_xml : String → Effect Disk Unit
  validate_orphan_task_xml payload = judge_xml (tools.parse_task payload)

  abbrev pub inspect_entry : Entry → Effect Disk (Option String)
  inspect_entry missing = pure none
  inspect_entry irregular = fail watchdog_error "orphan_task_file_invalid"
  inspect_entry (regular payload) = do
    validate_orphan_task_xml payload
    pure (some (tools.sha256 payload))

  -- The digest of the file, if there is a file and no task.
  unfoldable pub inspect_orphaned_task_file : Effect Disk (Option String)
  unfolding task_status validate_orphan_task_xml
  inspect_orphaned_task_file disk =
      if (task_status disk.scheduled).exists then (ok none, disk) else inspect_entry disk.entry disk

  abbrev pub bytes_of : Entry → Effect Disk String
  bytes_of (regular payload) = pure payload
  bytes_of _ = fail os_error "read"

  abbrev pub read_task_file : Effect Disk String
  read_task_file disk = bytes_of disk.entry disk

  abbrev pub is_intact : String → Entry → Bool
  is_intact digest (regular payload) = tools.sha256 payload == digest
  is_intact digest _ = false

  abbrev pub is_backup_of : String → Backup → Bool
  is_backup_of digest backup = elim backup.manifest [
    | none ↦ false
    | some manifest ↦
        is_dict manifest
        && (is_text (get "task_name" manifest) task_name
            && (is_text (get "task_file_sha256" manifest) digest && is_intact digest backup.file))
  ]

  abbrev manifest_of : String → Json
  manifest_of digest = object (
      ("task_name", text task_name)
      ∷ ("task_file_sha256", text digest)
      ∷ ("invocation_id", text tools.invocation_id)
      ∷ ("quarantined_at", text tools.now_iso)
      ∷ [])

  abbrev pub backup_of : String → String → Backup
  backup_of digest payload = record { manifest = some (manifest_of digest); file = regular payload }

  -- A backup is made whole beside its place and put there by os.replace.
  abbrev pub keep_backup : String → String → Option Backup → Effect Disk Unit
  keep_backup digest payload none disk =
      (ok tt, record disk { backups = insert digest (backup_of digest payload) disk.backups })
  keep_backup digest payload (some backup) disk =
      fail_if (not (is_backup_of digest backup)) watchdog_error "orphan_task_backup_collision" disk

  abbrev pub unlink : Effect Disk Unit
  unlink disk = (ok tt, record disk { entry = missing })

  abbrev pub unlink_and : String → Effect Disk (Option String)
  unlink_and digest = do unlink; pure (some digest)

  abbrev pub remove_checked : String → String → Effect Disk (Option String)
  remove_checked digest payload = do
    fail_if (not (tools.sha256 payload == digest)) watchdog_error
        "orphan_task_changed_before_quarantine"
    unlink_and digest

  abbrev pub remove_again : String → Effect Disk (Option String)
  remove_again digest = do again ← read_task_file; remove_checked digest again

  abbrev pub keep_and_remove : String → String → Effect Disk (Option String)
  keep_and_remove digest payload = do
    (λ disk. keep_backup digest payload (lookup digest disk.backups) disk)
    remove_again digest

  abbrev pub quarantine : Option String → Effect Disk (Option String)
  quarantine none = pure none
  quarantine (some digest) = do payload ← read_task_file; keep_and_remove digest payload

  unfoldable pub reconcile_orphaned_task_file : Effect Disk (Option String)
  unfolding inspect_orphaned_task_file insert lookup
  reconcile_orphaned_task_file = do digest ← inspect_orphaned_task_file; quarantine digest

  abbrev pub put_back : String → Entry → Effect Disk Unit
  put_back digest (regular payload) disk =
      if tools.sha256 payload == digest
      then (ok tt, record disk { entry = regular payload })
      else fail watchdog_error "orphan_task_backup_integrity_failed" disk
  put_back digest _ disk = fail os_error "read" disk

  abbrev pub file_of : Option Backup → Entry
  file_of none = missing
  file_of (some backup) = backup.file

  abbrev pub restore_missing : String → Entry → Effect Disk Unit
  restore_missing digest missing disk = put_back digest (file_of (lookup digest disk.backups)) disk
  restore_missing digest _ disk = (ok tt, disk)

  unfoldable pub restore_orphaned_task_file : Option String → Effect Disk Unit
  unfolding task_status lookup
  restore_orphaned_task_file none disk = (ok tt, disk)
  restore_orphaned_task_file (some digest) disk =
      if (task_status disk.scheduled).exists
      then (ok tt, disk)
      else restore_missing digest disk.entry disk

  abbrev is_task_headless_ready : TaskStatus → Bool
  is_task_headless_ready task =
      task.exists && (task.trigger_at_startup && python.casefold task.logon_type == "s4u")

  abbrev pub register_checked : Effect Disk TaskStatus
  register_checked = do
    tools.register_boot_task
    observed ← reads (λ disk. task_status disk.scheduled)
    fail_if (not (is_task_headless_ready observed)) watchdog_error
        "task_scheduler_elevated_readback_failed"
    pure observed

  abbrev pub undo : Option String → Exception → Effect Disk TaskStatus
  undo digest exc = do restore_orphaned_task_file digest; lift (raised exc)

  abbrev pub register_after : Option String → Effect Disk TaskStatus
  register_after digest = attempt register_checked (undo digest)

  -- register_task_from_metadata, from the installation on: what the scheduler shows in the end.
  unfoldable pub register_task : Effect Disk TaskStatus
  unfolding reconcile_orphaned_task_file restore_orphaned_task_file
  register_task = do digest ← reconcile_orphaned_task_file; register_after digest
