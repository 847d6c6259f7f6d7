-- ===== src/Rdc/Examples.antt =====
-- A host on which the headless runner is guarded and its claim is fresh.
use desktop_pc24x7_runtime.Prelude.{
  ℕ, ◌+◌, ◌*◌, ◌≤◌, ◌≡◌, ◌↔◌, ◌⊎◌, refl, true, false, some, [], ◌∷◌, String, arith, ◌==◌,
}
use desktop_pc24x7_runtime.Json.{Json, bool, num, text, object, get}
use desktop_pc24x7_runtime.Result.{ok, succeeded}
use desktop_pc24x7_runtime.Text.{Python, second}
use desktop_pc24x7_runtime.Rdc.Claim.{
  Claim, ClaimFile, missing, payload, read_claim, says_fresh, IsLive, read_claim-fresh_iff, unfresh,
}
use desktop_pc24x7_runtime.Rdc.Recover.{
  validate_source, first_marker, Machine, Payload, Source, Restart, headless_restart,
  interactive_restart, recover, read_headless_claim, wait_for_headless_ready, confirm_text,
  expected_host, task_headless, transport_marker,
}
use desktop_pc24x7_runtime.Rdc.Ownership.{admits, recover-refuses, wait_for_headless_ready-ends}
use desktop_pc24x7_runtime.Rdc.Proven.{IsTrue, recover-proves}

abbrev str : Json → String
str (text s) = s
str _ = ""

abbrev python : Python
python = record {
  str = str;
  casefold = λ s. s;
  upper = λ s. s;
  strip = λ s. s;
  fromisoformat = λ s. some (record { aware = true; instant = 10000 * second });
  isoformat = λ _. "1970-01-01T02:46:40+00:00";
  isalnum = λ _. true;
}

abbrev live : Json
live =
    object
      (("ready", bool true) ∷ ("pid", num 4711) ∷ ("updated_at", text "1970-01-01T02:46:40Z") ∷ [])

-- The world is the clock.
abbrev machine : ClaimFile → Machine ℕ
machine file = record {
  python = python;
  is_windows = true;
  hostname = expected_host;
  headless_source = λ _. some transport_marker;
  interactive_source = λ _. some "REM RDC_LAUNCHER_V5_READY_CLAIM";
  occurs = λ marker source. marker == source;
  schtasks = λ _ _ w. (ok 0, w);
  claim_file = λ _. file;
  now = λ w. 10000 * second + w;
  monotonic = λ w. w;
  sleep = λ d w. w + d;
  unlink_claim = λ w. (true, w);
}

read_claim-fresh_iff_example :
    (says_fresh (read_claim python (8 * second) (10001 * second) (payload live)) ≡ true) ↔ (
      (claim : Json) × (payload live ≡ payload claim)
      × IsLive python (8 * second) (10001 * second) claim)
read_claim-fresh_iff_example =
    read_claim-fresh_iff python (8 * second) (10001 * second) (payload live)

recover-refuses_example :
    (succeeded (recover (machine missing) "yes, please" 0).0 ≡ false)
    × ((recover (machine missing) "yes, please" 0).1 ≡ 0)
recover-refuses_example = recover-refuses (machine missing) "yes, please" 0 refl

unclaimed : (w : ℕ) → (claim : Claim) × (read_headless_claim (machine missing) w ≡ (ok claim, w))
unfolding read_headless_claim read_claim
unclaimed w = (unfresh "claim_missing", refl)

wait_for_headless_ready-ends_example :
    (claim : Claim) × (w' : ℕ) × (wait_for_headless_ready (machine missing) 0 ≡ (ok claim, w'))
    × ((claim.fresh ≡ true) ⊎ (0 + 12 * second ≤ w'))
wait_for_headless_ready-ends_example =
    wait_for_headless_ready-ends (machine missing) unclaimed (λ d w. omega arith) 0

abbrev source : String → Source
source marker = record { exists = true; governed = true; marker = some marker }

abbrev restart : Restart
restart = record { end_returncode = 0; run_returncode = 0 }

abbrev claim : Claim
claim = record { fresh = true; reason = "fresh"; pid = num 4711 }

abbrev recovered : Payload
recovered = record {
  host = expected_host;
  owner = "headless";
  mode = "headless_transport_proven_with_interactive_standby";
  task = task_headless;
  attempts = headless_restart restart (some claim) ∷ interactive_restart restart ∷ [];
  headless_source = source transport_marker;
  headless_transport_guarded = true;
  headless_claim = claim;
  interactive_source = source "REM RDC_LAUNCHER_V5_READY_CLAIM";
  fallback_armed = true;
}

payload_found : recover (machine (payload live)) confirm_text 0 ≡ (ok recovered, 0)
unfolding recover validate_source first_marker read_claim get
payload_found = refl

recover-proves_example :
    (admits (machine (payload live)) confirm_text ≡ true)
    × IsTrue (machine (payload live)) recovered 0
recover-proves_example = recover-proves (machine (payload live)) confirm_text 0 payload_found
