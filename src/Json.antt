-- ===== src/Json.antt =====
-- The values that json.loads returns, and the tests that the scripts make on them. Numbers are
-- the non-negative integers, the only ones that the program's own files hold.
use desktop_pc24x7_runtime.Prelude.{
  ℕ, zero, suc, String, Bool, true, false, List, [], ◌∷◌, ◌==◌, ◌||◌, if◌then◌else◌,
}

mutual
  pub data Json : Type 0 where
    null : Json
    bool : Bool → Json
    num : ℕ → Json
    text : String → Json
    arr : Items → Json
    obj : Fields → Json

  pub data Items : Type 0 where
    nil : Items
    cons : Json → Items → Items

  pub data Fields : Type 0 where
    end : Fields
    field : String → Json → Fields → Fields

unfoldable pub field_of : String → Fields → Json
field_of k end = null
field_of k (field j v fs) = if j == k then v else field_of k fs

unfoldable pub has_field : String → Fields → Bool
has_field k end = false
has_field k (field j v fs) = j == k || has_field k fs

-- value.get(k) of a dict; the callers test isinstance(value, dict) first.
unfoldable pub get : String → Json → Json
unfolding field_of
get k (obj fs) = field_of k fs
get k _ = null

-- `k in value` for a dict.
unfoldable pub has_key : String → Json → Bool
unfolding has_field
has_key k (obj fs) = has_field k fs
has_key k _ = false

abbrev pub is_dict : Json → Bool
is_dict (obj _) = true
is_dict _ = false

-- `value is True`
abbrev pub is_true : Json → Bool
is_true (bool b) = b
is_true _ = false

-- `value == s`
abbrev pub is_text : Json → String → Bool
is_text (text t) s = t == s
is_text _ s = false

-- bool(value)
abbrev pub truthy : Json → Bool
truthy null = false
truthy (bool b) = b
truthy (num n) = elim n [ zero ↦ false | suc _ ↦ true ]
truthy (text s) = if s == "" then false else true
truthy (arr nil) = false
truthy (arr _) = true
truthy (obj end) = false
truthy (obj _) = true

abbrev pub elements : Items → List Json
elements nil = []
elements (cons x xs) = x ∷ elements xs

-- A dict display, in its order.
abbrev pub dict : List (String × Json) → Fields
dict [] = end
dict ((k, v) ∷ rest) = field k v (dict rest)

abbrev pub object : List (String × Json) → Json
object fields = obj (dict fields)
