-- ===== src/Lib.antt =====
-- Desktop PC24x7 runtime: a model of the program in scripts/ and the theorems that make it correct.
--
-- The program keeps one Windows host under control. A supervisor probes the host's services and
-- recovers them; a watchdog keeps the GitHub runner and the remote desktop alive; an administrative
-- broker takes commands from the comments of one GitHub issue, and keeps itself up to date. A reading of
-- the capacity is admitted by an issue and claimed at most once by a file in the audit root.
-- - scripts/runtime_health_supervisor.py: Supervisor/Config.antt (validate_config), Supervisor/Cycle.antt
--   (run_cycle and its loop: visit is one turn, visit_all the loop) and Supervisor/Targets.antt
--   (probe_target and recover_target, as functions of the machine's state). The state file is a table of
--   entries by the target's name. Supervisor/Breaker.antt runs one cycle after the other (run_cycles): a
--   cycle that raises ends its process before the state is written, so the next one goes on from the
--   old state, and what it did before it raised is counted nowhere.
-- - scripts/desktop_admin_broker.py: Broker/Comment.antt (authorize_comment) and Broker/Process.antt
--   (process_once: classify and follow are one turn of its loop, and the journal lists what a pass
--   writes, runs and publishes, in its order). A crash is a journal that is cut off; the clock is read
--   anew for each comment.
-- - scripts/pc24x7_rdc_recovery.py: Rdc/Claim.antt (read_headless_claim, and read_rdc_claim of the watchdog),
--   Rdc/Recover.antt (recover and what it calls), Rdc/Ownership.antt (its refusals and its wait),
--   Rdc/Headless.antt and Rdc/Proven.antt (what a recovery has done).
-- - scripts/pc24x7_host_policy.py: HostPolicy.antt.
-- - scripts/desktop_control_plane_watchdog.py: Watchdog/Host.antt and Watchdog/Site.antt (what it calls),
--   Watchdog/Version.antt, Watchdog/Environment.antt, Watchdog/Runner.antt (start_runner and the
--   snapshots; stop_runner is in Runner/Stop.antt), Watchdog/Cycle.antt (cycle; the watchdog runs the
--   recovery script of the remote desktop), Watchdog/Orphan.antt (register_task_from_metadata),
--   Watchdog/Stopping.antt (the watchdog's lock and stop_watchdog_task) and Watchdog/Install.antt
--   (load_installed_metadata; install is in Install/Installer.antt).
-- - scripts/desktop_admin_broker.py, continued: Broker/Activation.antt (metadata.json, its lock, its
--   repair and the rollback), Broker/Refresh.antt (_self_refresh) and Broker/Actions.antt (the recoveries;
--   execute_action is in Actions/Execute.antt) and
--   Broker/Watch.antt (watch, with the status of its heartbeat); Broker/Lock.antt (_acquire_file_lock) and
--   Broker/Installation.antt (load_installed_metadata; the task in Installation/Scheduler.antt, the fallback
--   at logon in Autostart.antt, register_task_from_metadata in Register.antt).
-- - scripts/desktop_gitlab_capacity_admission.py, desktop_gitlab_capacity_claim.py and
--   desktop_gitlab_capacity_claim_status.py (also in scripts/): a request for one reading of the host's
--   capacity is an issue of the owner. Capacity/Issue.antt, Event.antt, Head.antt and Admission.antt (assess);
--   Capacity/Metadata.antt, File.antt and Claim.antt (claim; its main is in Claim/Main.antt, and the
--   steps of several processes in Claim/Once.antt), Root.antt (windows_private_root); Capacity/Status.antt (inspect). The audit root
--   is a table of the claims' bytes by request.
-- All files share Prelude.antt (numbers, texts, lists, dicts), Json.antt (what json.loads returns, for
-- non-negative whole numbers), Result.antt (exceptions as values) and Text.antt (the functions of
-- Python on texts and times, which are parameters).
--
-- What a script calls outside (processes, files, the network, the clock, Python's functions on texts)
-- is a parameter: a record of functions, of which a theorem assumes nothing that it does not name.
-- Where a pass or a cycle calls such a function at most once for an argument, a function of that
-- argument says all that the world can answer. Exceptions are values that carry their class and
-- message; messages that no code reads are shortened to their fixed part. Dates are instants in
-- microseconds, and other times are numbers of one unit. A wait takes fuel, more than the polls
-- that fit into its time: 26 for the twelve seconds of the remote desktop's claim at half a second, 31
-- for the thirty seconds of a runner's start at a second, and 31 for the fifteen seconds of its stop at
-- half a second; 3602 and 122 for the 900 and the 30 seconds of the broker's locks at a quarter of a second, and
-- 121 for the at most thirty of the watchdog's lock and of its task's stop. The repair of metadata.json makes three attempts, as the code does; the loop of
-- the broker's watch is cut off by an interrupt after any number of turns. Every other loop runs over
-- a list.
--
-- Not modelled: most main functions, argument parsing and logging; the Windows, Docker and GitHub interfaces;
-- the scripts that PROJECT.json lists as not modelled.
pub mod Prelude
pub mod Json
pub mod Result
pub mod Effect
pub mod Text
pub mod Supervisor
pub mod Rdc
pub mod HostPolicy
pub mod Watchdog
pub mod Capacity
pub mod Broker
