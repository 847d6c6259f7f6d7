-- ===== src/Capacity/Claim/Once.antt =====
-- Several processes that claim at once, cut off and begun again in any order: the steps of `claim`.
pub mod Exclusive
use desktop_pc24x7_runtime.Prelude.{
  ℕ, zero, suc, ◌≤◌, ◌<◌, ◌≡◌, refl, Bool, true, false, not, ◌&&◌, ◌||◌, Option, none, some, List,
  [], ◌∷◌, String, ◌==◌, eq_iff, arith, insert, lookup, lookup-insert, ap, sym, subst, ◌∙◌, eqb,
  if◌then◌else◌, ◌⊎◌, inl, inr, Bool-cases,
}
use desktop_pc24x7_runtime.Json.{Json}
use desktop_pc24x7_runtime.Result.{Result, ok, raised, succeeded}
use desktop_pc24x7_runtime.Effect.{Effect, resume}
use desktop_pc24x7_runtime.Capacity.Metadata.{validate_metadata}
use desktop_pc24x7_runtime.Capacity.Claim.{
  Claims, Checks, request_of, receipt_of, begin_claim, write_claim, read_back, open_claim, open_new,
}

-- How far a process has come with its claim: the request, and the bytes that it writes.
pub data Stage : Type 0 where
  idle : Stage
  opened written : String → String → Stage

-- What happens next, and what Windows answers. A process may be cut off at any point, and one that
-- has ended may begin again, with the same request too.
pub data Action : Type 0 where
  begins : ℕ → Checks → Json → Action
  writes reads : ℕ → Checks → Action
  stops : ℕ → Action

pub record System : Type 0 where
  pub claims : Claims
  pub stage : ℕ → Stage
  -- The requests for which a call of `claim` has returned.
  pub returned : List String

abbrev pub update : (ℕ → Stage) → ℕ → Stage → ℕ → Stage
update stage i new j = if eqb i j then new else stage j

abbrev pub after_begin : System → ℕ → Stage → Result (Unit {0}) × Claims → System
after_begin s i next (ok _, claims) = record s { claims = claims; stage = update s.stage i next }
after_begin s i next (raised _, claims) = record s { claims = claims }

abbrev pub begin_at : System → ℕ → (Json → String) → Checks → Json → Stage → System
begin_at s i dumps checks metadata idle =
    after_begin s i (opened (request_of metadata) (dumps (receipt_of metadata)))
      (begin_claim checks metadata s.claims)
begin_at s i dumps checks metadata _ = s

abbrev pub after_write : System → ℕ → Stage → Result (Unit {0}) × Claims → System
after_write s i next (ok _, claims) = record s { claims = claims; stage = update s.stage i next }
after_write s i next (raised _, claims) = record s {
  claims = claims;
  stage = update s.stage i idle;
}

abbrev pub write_at : System → ℕ → Checks → Stage → System
write_at s i checks (opened request payload) =
    after_write s i (written request payload) (write_claim checks request payload s.claims)
write_at s i checks _ = s

abbrev pub after_read : System → ℕ → String → Result (Unit {0}) × Claims → System
after_read s i request (ok _, claims) = record s {
  claims = claims;
  stage = update s.stage i idle;
  returned = request ∷ s.returned;
}
after_read s i request (raised _, claims) = record s {
  claims = claims;
  stage = update s.stage i idle;
}

abbrev pub read_at : System → ℕ → Checks → Stage → System
read_at s i checks (written request payload) =
    after_read s i request (read_back checks request payload s.claims)
read_at s i checks _ = s

-- One step of one process, by the steps of `claim`.
unfoldable pub act : (Json → String) → System → Action → System
act dumps s (begins i checks metadata) = begin_at s i dumps checks metadata (s.stage i)
act dumps s (writes i checks) = write_at s i checks (s.stage i)
act dumps s (reads i checks) = read_at s i checks (s.stage i)
act dumps s (stops i) = record s { stage = update s.stage i idle }

unfoldable pub run : (Json → String) → System → List Action → System
unfolding act
run dumps s [] = s
run dumps s (action ∷ actions) = run dumps (act dumps s action) actions

-- No process is under way.
abbrev pub start : Claims → System
start claims = record { claims = claims; stage = λ i. idle; returned = [] }

abbrev pub count : String → List String → ℕ
count request [] = 0
count request (x ∷ xs) = if x == request then suc (count request xs) else count request xs

abbrev pub is_claimed : Option String → Bool
is_claimed none = false
is_claimed (some _) = true

abbrev pub holds : String → Stage → Bool
holds request idle = false
holds request (opened r _) = r == request
holds request (written r _) = r == request

-- Of the processes with this request at most one is under way; its file is there; and once the claim
-- has returned, none is, and it has returned once.
pub record IsExclusive (request : String) (s : System) : Type 0 where
  pub single :
      (i j : ℕ) → holds request (s.stage i) ≡ true → holds request (s.stage j) ≡ true → i ≡ j
  pub kept :
      (i : ℕ) → holds request (s.stage i) ≡ true → is_claimed (lookup request s.claims) ≡ true
  pub ended : (i : ℕ) → 0 < count request s.returned → holds request (s.stage i) ≡ false
  pub consumed : 0 < count request s.returned → is_claimed (lookup request s.claims) ≡ true
  pub few : count request s.returned ≤ 1
