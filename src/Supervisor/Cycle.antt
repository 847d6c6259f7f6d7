-- ===== src/Supervisor/Cycle.antt =====
-- `run_cycle`: one pass over the configured targets, and the state that it leaves.
use desktop_pc24x7_runtime.Prelude.{
  ℕ, ◌+◌, ◌≡◌, Bool, true, false, ◌&&◌, Option, none, some, List, [], ◌∷◌, String, ltb, leb, all,
  lookup, insert, if◌then◌else◌,
}
use desktop_pc24x7_runtime.Json.{Json, bool, num, text, get, has_key, is_true}
use desktop_pc24x7_runtime.Result.{
  Result, ok, raise, type_error, ◌>>=◌, ◌>>◌, then-eq-ok, >>=-eq-ok, ok-injective,
}
use desktop_pc24x7_runtime.Supervisor.Config.{target_name, target_list, validate_config}

-- What the state file holds of one target. Times are numbers of one unit, a cooldown's too.
pub record Entry : Type 0 where
  pub attempts : ℕ
  pub opened_at_epoch : ℕ
  pub last_healthy_at : Option String
  pub last_attempt_at : Option String

abbrev pub new_entry : Entry
new_entry = record {
  attempts = 0;
  opened_at_epoch = 0;
  last_healthy_at = none;
  last_attempt_at = none;
}

pub data Status : Type 0 where
  status_ok infra_unavailable : Status

pub data Reason : Type 0 where
  circuit_breaker_open attempt_limit_reached recovery_attempted recovery_required : Reason

-- One element of evidence["targets"].
pub record Item : Type 0 where
  pub name : String
  pub kind : Json
  pub probe : Json
  pub status : Status
  pub reason : Option Reason
  pub recovery : Option Json

pub record State : Type 0 where
  pub targets : List (String × Entry)
  pub updated_at : Option String
  pub status : Option Status

pub record Evidence : Type 0 where
  pub timestamp : String
  pub host : String
  pub status : Status
  pub apply : Bool
  pub targets : List Item

-- What one cycle meets outside: the two callbacks, the clock, the host's name and Python's int of
-- a text. A cycle calls each callback at most once for a target, so a function of the target says
-- all that it can return.
pub record Surroundings : Type 0 where
  pub probe_fn : Json → Result Json
  pub recover_fn : Json → Result Json
  pub now : ℕ
  pub now_iso : String
  pub hostname : String
  pub int_of_text : String → Result ℕ

pub record Limits : Type 0 where
  pub max_attempts : ℕ
  pub cooldown : ℕ

-- int(value)
unfoldable pub int : (String → Result ℕ) → Json → Result ℕ
int int_of_text (num n) = ok n
int int_of_text (bool b) = ok (if b then 1 else 0)
int int_of_text (text s) = int_of_text s
int int_of_text _ = raise type_error "int() argument must be a string or a number"

-- int(config.get(key, default))
unfoldable pub int_field : (String → Result ℕ) → String → ℕ → Json → Result ℕ
unfolding int
int_field int_of_text key default config =
    if has_key key config then int int_of_text (get key config) else ok default

-- now - opened_at < cooldown is written as a sum, since a clock may have been set back.
unfoldable pub breaker_open : Entry → ℕ → ℕ → Bool
breaker_open entry now cooldown =
    ltb 0 entry.opened_at_epoch && ltb now (entry.opened_at_epoch + cooldown)

-- target_state.setdefault(name, ...)
abbrev pub entry_or_new : Option Entry → Entry
entry_or_new none = new_entry
entry_or_new (some entry) = entry

module _ (env : Surroundings) (apply : Bool) (limits : Limits) where
  abbrev unavailable : Json → Json → Reason → Option Json → Item
  unavailable target probe reason recovery = record {
    name = target_name target;
    kind = get "kind" target;
    probe = probe;
    status = infra_unavailable;
    reason = some reason;
    recovery = recovery;
  }

  -- The body of the loop for one target and its entry.
  unfoldable pub visit : Json → Entry → Result (Item × Entry)
  unfolding breaker_open
  visit target entry = do
    probe ← env.probe_fn target
    if is_true (get "healthy" probe)
        then ok (
          record {
            name = target_name target;
            kind = get "kind" target;
            probe = probe;
            status = status_ok;
            reason = none;
            recovery = none;
          },
          record entry { attempts = 0; opened_at_epoch = 0; last_healthy_at = some env.now_iso },
        )
        else if breaker_open entry env.now limits.cooldown
        then ok (unavailable target probe circuit_breaker_open none, entry)
        else if leb limits.max_attempts entry.attempts
        then ok (
          unavailable target probe attempt_limit_reached none,
          record entry { opened_at_epoch = env.now },
        )
        else if apply
        then (do
          recovery ← env.recover_fn target
          ok (
            unavailable target probe recovery_attempted (some recovery),
            record entry { attempts = entry.attempts + 1; last_attempt_at = some env.now_iso },
          ))
        else ok (unavailable target probe recovery_required none, entry)

  unfoldable pub visit_all :
      List Json → List (String × Entry) → Result (List Item × List (String × Entry))
  visit_all [] table = ok ([], table)
  visit_all (target ∷ rest) table = do
    visited ← visit target (entry_or_new (lookup (target_name target) table))
    others ← visit_all rest (insert (target_name target) visited.1 table)
    ok (visited.0 ∷ others.0, others.1)

-- A finished loop finished its first turn and the rest of the loop.
module _ (env : Surroundings) (apply : Bool) (limits : Limits) where
  pub visit_all-cons :
      (target : Json) (rest : List Json) (table : List (String × Entry))
      {r : List Item × List (String × Entry)}
      → visit_all env apply limits (target ∷ rest) table ≡ ok r
      → (visited : Item × Entry) × (others : List Item × List (String × Entry)) × (visit env apply
            limits target
            (entry_or_new (lookup (target_name target) table))
          ≡ ok visited)
        × (visit_all env apply limits rest (insert (target_name target) visited.1 table)
            ≡ ok others)
        × ((visited.0 ∷ others.0, others.1) ≡ r)
  unfolding visit_all
  visit_all-cons target rest table h =
      then-eq-ok (visit env apply limits target (entry_or_new (lookup (target_name target) table)))
        (λ visited. visit_all env apply limits rest (insert (target_name target) visited.1 table))
        (λ visited others. (visited.0 ∷ others.0, others.1)) h

abbrev pub is_ok : Status → Bool
is_ok status_ok = true
is_ok infra_unavailable = false

abbrev pub overall : List Item → Status
overall items = if all (λ item. is_ok item.status) items then status_ok else infra_unavailable

abbrev pub evidence_of : Surroundings → Bool → List Item → Evidence
evidence_of env apply items = record {
  timestamp = env.now_iso;
  host = env.hostname;
  status = overall items;
  apply = apply;
  targets = items;
}

abbrev pub state_of : Surroundings → List Item → List (String × Entry) → State
state_of env items table = record {
  targets = table;
  updated_at = some env.now_iso;
  status = some (overall items);
}

unfoldable pub run_cycle : Surroundings → Bool → Json → State → Result (Evidence × State)
run_cycle env apply config state = do
  validate_config config
  max_attempts ← int_field env.int_of_text "max_attempts" 3 config
  cooldown ← int_field env.int_of_text "cooldown_seconds" 900 config
  targets ← target_list (get "targets" config)
  visited ←
      visit_all env apply (record { max_attempts = max_attempts; cooldown = cooldown }) targets
        state.targets
  ok (evidence_of env apply visited.0, state_of env visited.0 visited.1)

-- The parts of a cycle that finished.
pub record Finished (env : Surroundings) (apply : Bool) (config : Json) (state : State)
    (r : Evidence × State) : Type 0 where
  pub valid : validate_config config ≡ ok tt
  pub limits : Limits
  pub read_max : int_field env.int_of_text "max_attempts" 3 config ≡ ok limits.max_attempts
  pub read_cooldown : int_field env.int_of_text "cooldown_seconds" 900 config ≡ ok limits.cooldown
  pub targets : List Json
  pub listed : target_list (get "targets" config) ≡ ok targets
  pub items : List Item
  pub table : List (String × Entry)
  pub visits : visit_all env apply limits targets state.targets ≡ ok (items, table)
  pub result : (evidence_of env apply items, state_of env items table) ≡ r

pub run_cycle-Finished :
    (env : Surroundings) (apply : Bool) (config : Json) (state : State) {r : Evidence × State}
    → run_cycle env apply config state ≡ ok r
    → Finished env apply config state r
unfolding run_cycle
run_cycle-Finished env apply config state h =
    let (_, valid, h) = >>=-eq-ok (validate_config config) _ h in
    let (m, read_max, h) = >>=-eq-ok (int_field env.int_of_text "max_attempts" 3 config) _ h in
    let (c, read_cooldown, h) =
      >>=-eq-ok (int_field env.int_of_text "cooldown_seconds" 900 config) _ h in
    let (ts, listed, h) = >>=-eq-ok (target_list (get "targets" config)) _ h in
    let ((items, table), visits, h) =
      >>=-eq-ok (visit_all env apply (record { max_attempts = m; cooldown = c }) ts state.targets) _
        h in
    record {
      valid = valid;
      limits = record { max_attempts = m; cooldown = c };
      read_max = read_max;
      read_cooldown = read_cooldown;
      targets = ts;
      listed = listed;
      items = items;
      table = table;
      visits = visits;
      result = ok-injective h;
    }
