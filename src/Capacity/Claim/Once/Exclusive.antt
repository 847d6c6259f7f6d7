-- ===== src/Capacity/Claim/Once/Exclusive.antt =====
-- Of the processes that claim one request at most one is under way, and one returns.
use desktop_pc24x7_runtime.Prelude.{
  ℕ, ◌≤◌, ◌≡◌, refl, true, false, Option, none, some, List, [], ◌∷◌, String, ◌==◌, eq_iff, arith,
  insert, lookup, lookup-insert, ap, sym, subst, ◌∙◌,
}
use desktop_pc24x7_runtime.Json.{Json}
use desktop_pc24x7_runtime.Result.{Result, ok, raised, succeeded}
use desktop_pc24x7_runtime.Effect.{Effect, resume}
use desktop_pc24x7_runtime.Capacity.Metadata.{validate_metadata}
use desktop_pc24x7_runtime.Capacity.Claim.{
  Claims, Checks, request_of, receipt_of, begin_claim, write_claim, read_back, open_claim, open_new,
}
use desktop_pc24x7_runtime.Capacity.Claim.Once.{
  Stage, idle, opened, written, Action, begins, writes, reads, stops, System, update, after_begin,
  begin_at, after_write, write_at, after_read, read_at, act, run, start, count, is_claimed, holds,
  IsExclusive,
}

module _ (request : String) where
  -- A process goes on, or stops, with a request that it already had; no file is lost.
  IsExclusive-go_on :
      (s : System) (i : ℕ) (new : Stage) (claims : Claims)
      → IsExclusive request s
      → (holds request new ≡ true → holds request (s.stage i) ≡ true)
      → (is_claimed (lookup request s.claims) ≡ true → is_claimed (lookup request claims) ≡ true)
      → IsExclusive request (record s { claims = claims; stage = update s.stage i new })
  IsExclusive-go_on s i new claims inv had more = record {
    single = λ a b p q. ground (arith, inv.single a b, inv.single i b, inv.single a i);
    kept = λ a p. ground (arith, inv.kept a, inv.kept i);
    ended = λ a p. ground (arith, inv.ended a, inv.ended i);
    consumed = λ p. more (inv.consumed p);
    few = inv.few;
  }

  -- A process begins with a request that has no file.
  IsExclusive-begin :
      (s : System) (i : ℕ) (new : Stage) (claims : Claims)
      → IsExclusive request s
      → (is_claimed (lookup request s.claims) ≡ true → is_claimed (lookup request claims) ≡ true)
      → (holds request new ≡ true
          → (is_claimed (lookup request s.claims) ≡ false)
            × (is_claimed (lookup request claims) ≡ true))
      → holds request (s.stage i) ≡ false
      → IsExclusive request (record s { claims = claims; stage = update s.stage i new })
  IsExclusive-begin s i new claims inv more fresh free = record {
    single = λ a b p q. ground (arith, inv.single a b, inv.kept a, inv.kept b);
    kept = λ a p. ground (arith, inv.kept a);
    ended = λ a p. ground (arith, inv.ended a, inv.consumed);
    consumed = λ p. more (inv.consumed p);
    few = inv.few;
  }

  -- A claim returns.
  IsExclusive-return :
      (s : System) (i : ℕ) (r : String)
      → IsExclusive request s
      → (r == request) ≡ holds request (s.stage i)
      → IsExclusive request (record s { stage = update s.stage i idle; returned = r ∷ s.returned })
  IsExclusive-return s i r inv same = record {
    single = λ a b p q. ground (arith, inv.single a b);
    kept = λ a p. ground (arith, inv.kept a);
    ended = λ a p. ground (arith, inv.ended a, inv.single a i);
    consumed = λ p. ground (arith, inv.kept i, inv.consumed);
    few = ground (arith, inv.ended i, inv.few);
  }

  start-IsExclusive : (claims : Claims) → IsExclusive request (start claims)
  start-IsExclusive claims = record {
    single = λ i j p q. cc;
    kept = λ i p. cc;
    ended = λ i p. refl;
    consumed = λ p. ground arith;
    few = ground arith;
  }

  insert-claimed :
      (key value : String) (claims : Claims)
      → is_claimed (lookup request claims) ≡ true
      → is_claimed (lookup request (insert key value claims)) ≡ true
  insert-claimed key value claims h = ground (arith, lookup-insert key request value claims)

  insert-same :
      (key value : String) (claims : Claims)
      → (key == request) ≡ true
      → is_claimed (lookup request (insert key value claims)) ≡ true
  insert-same key value claims h = ground (arith, lookup-insert key request value claims)

  -- What the opening of the file does, with whatever result.
  abbrev Opens : String → Claims → Result (Unit {0}) × Claims → Type 0
  Opens key before (result, after) =
      (is_claimed (lookup request before) ≡ true → is_claimed (lookup request after) ≡ true)
      × (succeeded result ≡ true
          → (key == request) ≡ true
          → (is_claimed (lookup request before) ≡ false)
            × (is_claimed (lookup request after) ≡ true))

  open_new-Opens :
      (key : String) (claims : Claims) (found : Option String)
      → lookup key claims ≡ found
      → Opens key claims (open_new key found claims)
  open_new-Opens key claims none e = (
    insert-claimed key "" claims,
    λ s k. (ground (arith, eq_iff key request), insert-same key "" claims k),
  )
  open_new-Opens key claims (some old) e = (λ c. c, λ s k. cc)

  begin_claim-Opens :
      (checks : Checks) (metadata : Json) (claims : Claims)
      → Opens (request_of metadata) claims (begin_claim checks metadata claims)
  unfolding begin_claim open_claim
  begin_claim-Opens checks metadata claims = go (validate_metadata metadata) checks.enter
    where
      opening : Effect Claims (Unit {0})
      opening = open_claim (request_of metadata)

      go :
          (valid entered : Result (Unit {0}))
          → Opens
              (request_of metadata)
              claims
              (resume (valid, claims) (λ _ c. resume (entered, c) (λ _. opening)))
      go (ok _) (ok _) =
          open_new-Opens (request_of metadata) claims (lookup (request_of metadata) claims) refl
      go (ok _) (raised exc) = (λ c. c, λ s k. cc)
      go (raised exc) entered = (λ c. c, λ s k. cc)

  write_claim-kept :
      (checks : Checks) (key payload : String) (claims : Claims)
      → is_claimed (lookup request claims) ≡ true
      → is_claimed (lookup request (write_claim checks key payload claims).1) ≡ true
  unfolding write_claim
  write_claim-kept checks key payload claims h =
      ground (arith, insert-claimed key payload claims, insert-claimed key checks.torn claims)

  read_back-kept :
      (checks : Checks) (key payload : String) (claims : Claims)
      → (read_back checks key payload claims).1 ≡ claims
  unfolding read_back
  read_back-kept checks key payload claims = ground arith

  Opens-IsExclusive :
      (s : System) (i : ℕ) (key payload : String) (opening : Result (Unit {0}) × Claims)
      → IsExclusive request s
      → Opens key s.claims opening
      → holds request (s.stage i) ≡ false
      → IsExclusive request (after_begin s i (opened key payload) opening)
  Opens-IsExclusive s i key payload (ok tt, claims) inv opens free =
      IsExclusive-begin s i (opened key payload) claims inv opens.0 (λ same. opens.1 refl same) free
  Opens-IsExclusive s i key payload (raised exc, claims) inv opens free = record {
    single = inv.single;
    kept = λ a p. opens.0 (inv.kept a p);
    ended = inv.ended;
    consumed = λ p. opens.0 (inv.consumed p);
    few = inv.few;
  }

  begin_at-IsExclusive :
      (s : System) (i : ℕ) (dumps : Json → String) (checks : Checks) (metadata : Json)
      (stage : Stage)
      → s.stage i ≡ stage
      → IsExclusive request s
      → IsExclusive request (begin_at s i dumps checks metadata stage)
  begin_at-IsExclusive s i dumps checks metadata idle e inv =
      Opens-IsExclusive s i (request_of metadata) (dumps (receipt_of metadata))
        (begin_claim checks metadata s.claims) inv (begin_claim-Opens checks metadata s.claims)
        (ap (holds request) e)
  begin_at-IsExclusive s i dumps checks metadata (opened key payload) e inv = inv
  begin_at-IsExclusive s i dumps checks metadata (written key payload) e inv = inv

  after_write-IsExclusive :
      (s : System) (i : ℕ) (key payload : String) (writing : Result (Unit {0}) × Claims)
      → IsExclusive request s
      → s.stage i ≡ opened key payload
      → (is_claimed (lookup request s.claims) ≡ true → is_claimed (lookup request writing.1) ≡ true)
      → IsExclusive request (after_write s i (written key payload) writing)
  after_write-IsExclusive s i key payload (ok tt, claims) inv e more =
      IsExclusive-go_on s i (written key payload) claims inv (λ same. ap (holds request) e ∙ same)
        more
  after_write-IsExclusive s i key payload (raised exc, claims) inv e more =
      IsExclusive-go_on s i idle claims inv (λ same. cc) more

  write_at-IsExclusive :
      (s : System) (i : ℕ) (checks : Checks) (stage : Stage)
      → s.stage i ≡ stage
      → IsExclusive request s
      → IsExclusive request (write_at s i checks stage)
  write_at-IsExclusive s i checks idle e inv = inv
  write_at-IsExclusive s i checks (opened key payload) e inv =
      after_write-IsExclusive s i key payload (write_claim checks key payload s.claims) inv e
        (write_claim-kept checks key payload s.claims)
  write_at-IsExclusive s i checks (written key payload) e inv = inv

  after_read-IsExclusive :
      (s : System) (i : ℕ) (key payload : String) (reading : Result (Unit {0}) × Claims)
      → IsExclusive request s
      → s.stage i ≡ written key payload
      → reading.1 ≡ s.claims
      → IsExclusive request (after_read s i key reading)
  after_read-IsExclusive s i key payload (ok tt, claims) inv e same =
      subst (λ after. IsExclusive request (after_read s i key (ok tt, after))) (sym same)
        (IsExclusive-return s i key inv (sym (ap (holds request) e)))
  after_read-IsExclusive s i key payload (raised exc, claims) inv e same =
      IsExclusive-go_on s i idle claims inv (λ held. cc)
        (λ there. ap (λ after. is_claimed (lookup request after)) same ∙ there)

  read_at-IsExclusive :
      (s : System) (i : ℕ) (checks : Checks) (stage : Stage)
      → s.stage i ≡ stage
      → IsExclusive request s
      → IsExclusive request (read_at s i checks stage)
  read_at-IsExclusive s i checks idle e inv = inv
  read_at-IsExclusive s i checks (opened key payload) e inv = inv
  read_at-IsExclusive s i checks (written key payload) e inv =
      after_read-IsExclusive s i key payload (read_back checks key payload s.claims) inv e
        (read_back-kept checks key payload s.claims)

module _ (dumps : Json → String) (request : String) where
  -- Every step of every process keeps it so that of the processes with one request at most one is
  -- under way, that the request's file stays, and that its claim returns at most once.
  pub act-IsExclusive :
      (s : System) (action : Action)
      → IsExclusive request s
      → IsExclusive request (act dumps s action)
  unfolding act
  act-IsExclusive s (begins i checks metadata) inv =
      begin_at-IsExclusive request s i dumps checks metadata (s.stage i) refl inv
  act-IsExclusive s (writes i checks) inv =
      write_at-IsExclusive request s i checks (s.stage i) refl inv
  act-IsExclusive s (reads i checks) inv =
      read_at-IsExclusive request s i checks (s.stage i) refl inv
  act-IsExclusive s (stops i) inv =
      IsExclusive-go_on request s i idle s.claims inv (λ held. cc) (λ there. there)

  run-IsExclusive :
      (s : System) (actions : List Action)
      → IsExclusive request s
      → IsExclusive request (run dumps s actions)
  unfolding run
  run-IsExclusive s [] inv = inv
  run-IsExclusive s (action ∷ actions) inv =
      run-IsExclusive (act dumps s action) actions (act-IsExclusive s action inv)

  -- Processes that claim at once, are cut off at any point and begin again, in any order and with
  -- any answers of Windows, from any claims in the audit root: for one request `claim` returns at
  -- most once.
  pub claim-once :
      (claims : Claims) (actions : List Action)
      → count request (run dumps (start claims) actions).returned ≤ 1
  claim-once claims actions =
      (run-IsExclusive (start claims) actions (start-IsExclusive request claims)).few
