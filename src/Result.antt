-- ===== src/Result.antt =====
-- Python's exceptions as values: the class of the exception and its message.
use desktop_pc24x7_runtime.Prelude.{◌≡◌, refl, ap, ◌⊎◌, inl, inr, Bool, true, false, String}

-- The classes that some handler of the program tells apart. `name` is type(exc).__name__ of a
-- class that no handler names.
pub data ExceptionClass : Type 0 where
  supervisor_error watchdog_error broker_error recovery_error claim_error : ExceptionClass
  os_error subprocess_error value_error type_error key_error : ExceptionClass
  other_error : String → ExceptionClass

pub record Exception : Type 0 where
  pub class : ExceptionClass
  pub message : String

pub data Result {ℓ} (A : Type ℓ) : Type ℓ where
  ok : A → Result A
  raised : Exception → Result A

abbrev pub ◌>>=◌ {ℓ κ} :
    {Value : Type ℓ} {Next : Type κ} → Result Value → (Value → Result Next) → Result Next
◌>>=◌ (raised exc) next = raised exc
◌>>=◌ (ok value) next = next value

abbrev pub ◌>>◌ {ℓ} : {B : Type ℓ} → Result (Unit {0}) → Result B → Result B
◌>>◌ step next = step >>= λ _. next

infixl 10 ◌>>=◌ ◌>>◌
abbrev pub raise {ℓ} : {A : Type ℓ} → ExceptionClass → String → Result A
raise c m = raised (record { class = c; message = m })

-- `if test: raise ...`
abbrev pub raise_if : Bool → ExceptionClass → String → Result (Unit {0})
raise_if true c m = raise c m
raise_if false c m = ok tt

pub >>=-eq-ok {ℓ κ} :
    {A : Type ℓ} {B : Type κ} (step : Result A) (next : A → Result B) {result : B}
    → (step >>= next) ≡ ok result
    → (value : A) × (step ≡ ok value) × (next value ≡ ok result)
>>=-eq-ok (raised exc) next h = cc
>>=-eq-ok (ok value) next h = (value, refl, h)

pub ok-injective {ℓ} : {A : Type ℓ} {a b : A} → ok a ≡ ok b → a ≡ b
ok-injective {A} {a} h = ap (value_or a) h
  where
    value_or : A → Result A → A
    value_or d (ok x) = x
    value_or d (raised e) = d

-- Inversion of two steps whose results are put together.
pub then-eq-ok {ℓ κ ι} :
    {A : Type ℓ} {B : Type κ} {C : Type ι} (m : Result A) (k : A → Result B) (f : A → B → C) {c : C}
    → (m >>= λ a. k a >>= λ b. ok (f a b)) ≡ ok c
    → (a : A) × (b : B) × (m ≡ ok a) × (k a ≡ ok b) × (f a b ≡ c)
then-eq-ok (raised e) k f h = cc
then-eq-ok (ok a) k f h =
    let (b, e, g) = >>=-eq-ok (k a) (λ b. ok (f a b)) h in (a, b, refl, e, ok-injective g)

pub Result-cases {ℓ} :
    {A : Type ℓ} (m : Result A) → ((a : A) × (m ≡ ok a)) ⊎ ((e : Exception) × (m ≡ raised e))
Result-cases (ok a) = inl (a, refl)
Result-cases (raised e) = inr (e, refl)

abbrev pub succeeded {ℓ} : {A : Type ℓ} → Result A → Bool
succeeded (ok _) = true
succeeded (raised _) = false
