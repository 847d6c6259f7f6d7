-- ===== src/Prelude/Lists.antt =====
-- Lists over the native numbers, predicates on lists, and dictionaries with text keys.
use Prim.Native.Nat.{ℕ, suc}
use Prim.Native.String.{String}
use mathlib.Core.Path.{◌≡◌, refl}
use mathlib.Core.Logic.{◌↔◌}
use mathlib.Core.Bool.{Bool, true, false, ◌&&◌, ◌||◌}
use mathlib.Core.List.{List, [], ◌∷◌}
use mathlib.Core.Option.{Option, none, some}
use native.Mathlib.Omega.{arith}
use text.Mathlib.Text.{◌==◌}
use text.Mathlib.TextEquality.{eq_iff}
use desktop_pc24x7_runtime.Prelude.Tests.{if◌then◌else◌}

module _ {ℓ} {A : Type ℓ} where
  abbrev pub length : List A → ℕ
  length [] = 0
  length (_ ∷ xs) = suc (length xs)

  -- Python's all(...) and any(...) over a generator.
  abbrev pub all : (A → Bool) → List A → Bool
  all p [] = true
  all p (x ∷ xs) = p x && all p xs

  abbrev pub any : (A → Bool) → List A → Bool
  any p [] = false
  any p (x ∷ xs) = p x || any p xs

abbrev pub All {ℓ κ} : {A : Type ℓ} → (A → Type κ) → List A → Type κ
All P [] = Unit
All P (x ∷ xs) = P x × All P xs

pub all_iff {ℓ} :
    {A : Type ℓ} (p : A → Bool) (xs : List A) → (all p xs ≡ true) ↔ All (λ x. p x ≡ true) xs
all_iff p [] = (λ _. tt, λ _. refl)
all_iff p (x ∷ xs) = ground (arith, all_iff p xs)

-- `x in xs` for texts.
abbrev pub contains : List String → String → Bool
contains xs x = any (λ y. y == x) xs

-- A dict with text keys, in insertion order: table[key] = value, and table.get(key).
module _ {ℓ} {V : Type ℓ} where
  unfoldable pub insert : String → V → List (String × V) → List (String × V)
  insert key value [] = (key, value) ∷ []
  insert key value ((k, old) ∷ table) =
      if k == key then (k, value) ∷ table else (k, old) ∷ insert key value table

  unfoldable pub lookup : String → List (String × V) → Option V
  lookup key [] = none
  lookup key ((k, value) ∷ table) = if k == key then some value else lookup key table

  pub lookup-insert :
      (key asked : String) (value : V) (table : List (String × V))
      → lookup asked (insert key value table)
        ≡ (if key == asked then some value else lookup asked table)
  unfolding insert lookup
  lookup-insert key asked value [] = refl
  lookup-insert key asked value ((k, old) ∷ table) =
      ground
        (arith, lookup-insert key asked value table, eq_iff k asked, eq_iff key asked, eq_iff k key)
