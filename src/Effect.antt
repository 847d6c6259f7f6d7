-- ===== src/Effect.antt =====
-- Code that acts on the outside world, and may raise: what it did before it raised stays done.
use desktop_pc24x7_runtime.Prelude.{◌≡◌, refl, ap, Bool, true, false, String}
use desktop_pc24x7_runtime.Result.{Result, ok, raised, Exception, ExceptionClass}

abbrev pub Effect : Type 0 → Type 0 → Type 0
Effect W A = W → Result A × W

module _ {W A : Type 0} where
  abbrev pub pure : A → Effect W A
  pure value w = (ok value, w)

  abbrev pub fail : ExceptionClass → String → Effect W A
  fail class message w = (raised (record { class = class; message = message }), w)

  -- A calculation that reads the world.
  abbrev pub reads : (W → A) → Effect W A
  reads f w = (ok (f w), w)

  abbrev pub lift : Result A → Effect W A
  lift r w = (r, w)

  abbrev pub handle : Result A × W → (Exception → Effect W A) → Result A × W
  handle (ok value, w) handler = (ok value, w)
  handle (raised exc, w) handler = handler exc w

  -- try: ... except Exception as exc: ...
  abbrev pub attempt : Effect W A → (Exception → Effect W A) → Effect W A
  attempt body handler w = handle (body w) handler

module _ {W A B : Type 0} where
  infixl 10 ◌>>=◌ ◌>>◌
  abbrev pub resume : Result A × W → (A → Effect W B) → Result B × W
  resume (ok value, w) next = next value w
  resume (raised exc, w) next = (raised exc, w)

  abbrev pub ◌>>=◌ : Effect W A → (A → Effect W B) → Effect W B
  ◌>>=◌ body next w = resume (body w) next

  abbrev pub ◌>>◌ : Effect W A → Effect W B → Effect W B
  ◌>>◌ body next w = resume (body w) (λ _. next)

  abbrev pub with_result : Result A → Result B × W → Result A × W
  with_result r (ok _, w) = (r, w)
  with_result r (raised exc, w) = (raised exc, w)

  abbrev pub last_of : Result A × W → Effect W B → Result A × W
  last_of (r, w) last = with_result r (last w)

  -- try: ... finally: ...
  abbrev pub finally : Effect W A → Effect W B → Effect W A
  finally body last w = last_of (body w) last

  -- A body that ended well: its first step did, and so did the rest from there.
  pub resume-eq-ok :
      (r : Result A × W) (next : A → Effect W B) {b : B} {w' : W}
      → resume r next ≡ (ok b, w')
      → (a : A) × (w : W) × (r ≡ (ok a, w)) × (next a w ≡ (ok b, w'))
  resume-eq-ok (ok a, w) next h = (a, w, refl, h)
  resume-eq-ok (raised exc, w) next h =
      let impossible : ⊥ = cc (ap (λ (p : Result B × W). p.0) h) in absurd impossible

module _ {W : Type 0} where
  abbrev pub fail_if : Bool → ExceptionClass → String → Effect W (Unit {0})
  fail_if true class message = fail class message
  fail_if false class message = pure tt
