-- ===== src/Capacity/Equal.antt =====
-- `==` of two values that json.loads returned.
use desktop_pc24x7_runtime.Prelude.{Bool, true, false, ◌&&◌, String, ◌==◌, eqb}
use desktop_pc24x7_runtime.Json.{
  Json, Items, Fields, null, bool, num, text, arr, obj, nil, cons, end, field, has_field, field_of,
  is_dict,
}

abbrev same_bool : Bool → Bool → Bool
same_bool true b = b
same_bool false true = false
same_bool false false = true

-- True is 1 and False is 0.
abbrev is_bit : Bool → Json → Bool
is_bit b (bool c) = same_bool b c
is_bit true (num n) = eqb n 1
is_bit false (num n) = eqb n 0
is_bit b _ = false

abbrev is_number : Json → Json → Bool
is_number (num n) (num m) = eqb n m
is_number (num n) (bool b) = is_bit b (num n)
is_number _ _ = false

abbrev is_null : Json → Bool
is_null null = true
is_null _ = false

abbrev is_same_text : String → Json → Bool
is_same_text s (text t) = s == t
is_same_text s _ = false

abbrev fields_of : Json → Fields
fields_of (obj fs) = fs
fields_of _ = end

abbrev has_all : Fields → Fields → Bool
has_all end fs = true
has_all (field k v rest) fs = has_field k fs && has_all rest fs

unfoldable mutual
  unfolding has_field field_of

  pub equals : Json → Json → Bool
  equals null b = is_null b
  equals (bool x) b = is_bit x b
  equals (num n) b = is_number (num n) b
  equals (text s) b = is_same_text s b
  equals (arr xs) b = is_same_list xs b
  equals (obj fs) b = is_dict b && (has_values fs (fields_of b) && has_all (fields_of b) fs)

  is_same_list : Items → Json → Bool
  is_same_list nil (arr nil) = true
  is_same_list (cons x xs) (arr (cons y ys)) = equals x y && is_same_list xs (arr ys)
  is_same_list _ _ = false

  has_values : Fields → Fields → Bool
  has_values end gs = true
  has_values (field k v fs) gs = (has_field k gs && equals v (field_of k gs)) && has_values fs gs
