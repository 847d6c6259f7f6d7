-- ===== src/Capacity/Keys.antt =====
-- The keys of a dict, as the capacity scripts test them.
use desktop_pc24x7_runtime.Prelude.{
  Bool, true, false, not, ◌&&◌, List, [], ◌∷◌, String, contains, all,
}
use desktop_pc24x7_runtime.Json.{
  Json, Items, Fields, null, bool, num, text, arr, obj, nil, cons, end, field, has_field, dict,
}

-- object_pairs_hook raises on a key that a dict shows twice, at any depth.
unfoldable mutual
  unfolding has_field

  pub is_unique : Json → Bool
  is_unique (arr xs) = are_unique xs
  is_unique (obj fs) = is_unique_dict fs
  is_unique null = true
  is_unique (bool b) = true
  is_unique (num n) = true
  is_unique (text t) = true

  pub are_unique : Items → Bool
  are_unique nil = true
  are_unique (cons x xs) = is_unique x && are_unique xs

  pub is_unique_dict : Fields → Bool
  is_unique_dict end = true
  is_unique_dict (field k v fs) = not (has_field k fs) && (is_unique v && is_unique_dict fs)

abbrev pub keys : Fields → List String
keys end = []
keys (field k v fs) = k ∷ keys fs

-- set(data) == expected
abbrev pub has_exactly : List String → Json → Bool
has_exactly expected (obj fs) =
    all (λ key. contains expected key) (keys fs) && all (λ key. contains (keys fs) key) expected
has_exactly expected _ = false

abbrev pub is_string : Json → Bool
is_string (text _) = true
is_string _ = false

-- A test of a text; the callers test isinstance(value, str) first.
abbrev pub text_fits : (String → Bool) → Json → Bool
text_fits test (text s) = test s
text_fits test _ = false

abbrev append_fields : Fields → Fields → Fields
append_fields end more = more
append_fields (field k v fs) more = field k v (append_fields fs more)

-- {**value, ...}; none of the new keys is one of the value's.
abbrev pub extend : Json → List (String × Json) → Json
extend (obj fields) more = obj (append_fields fields (dict more))
extend value more = value
