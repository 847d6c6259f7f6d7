-- ===== src/Watchdog/Orphan/Restored.antt =====
-- What the quarantine of a task file keeps.
use desktop_pc24x7_runtime.Prelude.{
  ◌≡◌, inl, inr, refl, sym, ap, subst, ◌∙◌, Option, none, some, String, ◌==◌, Bool, true, false,
  not, lookup, lookup-insert, arith, Option-cases, eq_refl,
}
use desktop_pc24x7_runtime.Result.{Result, ok, ok-injective, watchdog_error}
use desktop_pc24x7_runtime.Effect.{fail_if, resume, resume-eq-ok}
use desktop_pc24x7_runtime.Watchdog.Orphan.{
  Entry, missing, irregular, regular, Backup, Disk, Tools, is_intact, is_backup_of, backup_of,
  keep_backup, read_task_file, bytes_of, unlink_and, keep_and_remove, remove_again, remove_checked,
  quarantine, restore_missing, put_back, file_of,
}

module _ (tools : Tools) where
  -- The backup of the digest holds a file with that digest.
  abbrev pub is_kept : String → Option Backup → Bool
  is_kept digest none = false
  is_kept digest (some backup) = is_intact tools digest backup.file

  is_backup_of-intact :
      (digest : String) (backup : Backup)
      → is_backup_of tools digest backup ≡ true
      → is_intact tools digest backup.file ≡ true
  is_backup_of-intact digest backup h = elim (Option-cases backup.manifest) [
    | inl e ↦ ground arith
    | inr (m, e) ↦ ground arith
  ]

  keep_backup-kept :
      (digest payload : String) (before : Option Backup) (disk : Disk) {disk' : Disk}
      → lookup digest disk.backups ≡ before
      → (tools.sha256 payload == digest) ≡ true
      → keep_backup tools digest payload before disk ≡ (ok tt, disk')
      → (is_kept digest (lookup digest disk'.backups) ≡ true) × (disk'.entry ≡ disk.entry)
  keep_backup-kept digest payload none disk before same h =
      subst
        (λ (d : Disk). (is_kept digest (lookup digest d.backups) ≡ true) × (d.entry ≡ disk.entry))
        (ap (λ (p : Result (Unit {0}) × Disk). p.1) h)
        (
          rw
              (
                lookup-insert digest digest (backup_of tools digest payload) disk.backups,
                eq_refl digest,
              )
              same,
          refl,
        )
  keep_backup-kept digest payload (some backup) disk {disk'} before same h =
      go (is_backup_of tools digest backup) refl h
    where
      go :
          (b : Bool)
          → is_backup_of tools digest backup ≡ b
          → fail_if (not b) watchdog_error "orphan_task_backup_collision" disk ≡ (ok tt, disk')
          → (is_kept digest (lookup digest disk'.backups) ≡ true) × (disk'.entry ≡ disk.entry)
      go true e h =
          subst
            (λ (d : Disk).
              (is_kept digest (lookup digest d.backups) ≡ true) × (d.entry ≡ disk.entry))
            (ap (λ (p : Result (Unit {0}) × Disk). p.1) h)
            (rw before (is_backup_of-intact digest backup e), refl)
      go false e h =
          let impossible : ⊥ = cc (ap (λ (p : Result (Unit {0}) × Disk). p.0) h) in
          absurd impossible

  restored-IsSame :
      (digest : String) (before : Option Backup) (disk : Disk)
      → is_kept digest before ≡ true
      → (payload : String) × ((put_back tools digest (file_of tools before) disk).1.entry
          ≡ regular payload)
        × ((tools.sha256 payload == digest) ≡ true)
  restored-IsSame digest none disk kept = cc
  restored-IsSame digest (some backup) disk kept = go backup.file kept
    where
      go :
          (entry : Entry)
          → is_intact tools digest entry ≡ true
          → (payload : String) × ((put_back tools digest entry disk).1.entry ≡ regular payload)
            × ((tools.sha256 payload == digest) ≡ true)
      go missing k = cc
      go irregular k = cc
      go (regular payload) k = (payload, rw k refl, k)

  read_task_file-same :
      (disk : Disk) {payload : String} {disk' : Disk}
      → read_task_file tools disk ≡ (ok payload, disk')
      → (disk.entry ≡ regular payload) × (disk ≡ disk')
  read_task_file-same disk {payload} {disk'} h = go disk.entry h
    where
      go :
          (entry : Entry)
          → bytes_of tools entry disk ≡ (ok payload, disk')
          → (entry ≡ regular payload) × (disk ≡ disk')
      go (regular p) h = (
        ap regular (ok-injective (ap (λ (p : Result String × Disk). p.0) h)),
        ap (λ (p : Result String × Disk). p.1) h,
      )
      go missing h =
          let impossible : ⊥ = cc (ap (λ (p : Result String × Disk). p.0) h) in absurd impossible
      go irregular h =
          let impossible : ⊥ = cc (ap (λ (p : Result String × Disk). p.0) h) in absurd impossible

  remove_checked-missing :
      (digest payload : String) (disk : Disk) {found : Option String} {disk' : Disk}
      → remove_checked tools digest payload disk ≡ (ok found, disk')
      → (disk'.entry ≡ missing) × (disk'.backups ≡ disk.backups)
  remove_checked-missing digest payload disk {found} {disk'} h =
      go (tools.sha256 payload == digest) h
    where
      go :
          (b : Bool)
          → resume
              (fail_if (not b) watchdog_error "orphan_task_changed_before_quarantine" disk)
              (λ _. unlink_and tools digest)
            ≡ (ok found, disk')
          → (disk'.entry ≡ missing) × (disk'.backups ≡ disk.backups)
      go true h =
          subst (λ (d : Disk). (d.entry ≡ missing) × (d.backups ≡ disk.backups))
            (ap (λ (p : Result (Option String) × Disk). p.1) h) (refl, refl)
      go false h =
          let impossible : ⊥ = cc (ap (λ (p : Result (Option String) × Disk). p.0) h) in
          absurd impossible

  -- The quarantine of a task file that ends well has taken the file away, and left a backup from which
  -- the restoration, where there is no task and no file, makes a file of the same digest.
  pub quarantine-restores :
      (digest : String) (disk : Disk) {found : Option String} {disk' : Disk}
      → ((payload : String)
          → disk.entry ≡ regular payload
          → (tools.sha256 payload == digest) ≡ true)
      → quarantine tools (some digest) disk ≡ (ok found, disk')
      → (disk'.entry ≡ missing)
        × ((payload : String) × ((restore_missing tools digest missing disk').1.entry
              ≡ regular payload)
            × ((tools.sha256 payload == digest) ≡ true))
  quarantine-restores digest disk {found} {disk'} same h =
      let (payload, w1, e1, h1) =
        resume-eq-ok (read_task_file tools disk) (keep_and_remove tools digest) h in
      let (entry, d1) = read_task_file-same disk e1 in
      let (t, w2, e2, h2) =
        resume-eq-ok (keep_backup tools digest payload (lookup digest w1.backups) w1)
          (λ _. remove_again tools digest) h1 in
      let (again, w3, e3, h3) =
        resume-eq-ok (read_task_file tools w2) (remove_checked tools digest) h2 in
      let (_, d3) = read_task_file-same w2 e3 in
      let (gone, kept) = remove_checked-missing digest again w3 h3 in
      let (safe, _) =
        keep_backup-kept digest payload (lookup digest w1.backups) w1 refl (same payload entry)
          (e2 ∙ ap (λ (u : Unit {0}). (ok u, w2)) (unit t)) in
      let backups : w2.backups ≡ disk'.backups = ap (λ (d : Disk). d.backups) d3 ∙ sym kept in
      (
        gone,
        restored-IsSame digest (lookup digest disk'.backups) disk'
            (subst (λ b. is_kept digest (lookup digest b) ≡ true) backups safe),
      )
    where
      unit : (t : Unit {0}) → t ≡ tt
      unit t = refl
