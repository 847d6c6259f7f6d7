-- ===== src/Text.antt =====
-- Python's functions on texts and times that the scripts call and do not define.
use Prim.Native.Char.{Char, code}
use Prim.Native.String.{◌++◌}
use desktop_pc24x7_runtime.Prelude.{ℕ, String, Bool, Option, eqb, if◌then◌else◌}
use desktop_pc24x7_runtime.Json.{Json, truthy}

-- What datetime.fromisoformat returns: whether it knows its time zone, and the instant in UTC, in
-- microseconds.
pub record Stamp : Type 0 where
  pub aware : Bool
  pub instant : ℕ

pub record Python : Type 0 where
  pub str : Json → String
  pub casefold : String → String
  pub upper : String → String
  pub strip : String → String
  pub fromisoformat : String → Option Stamp
  -- datetime.isoformat of an instant in UTC.
  pub isoformat : ℕ → String
  -- ch.isalnum()
  pub isalnum : Char → Bool

abbrev pub second : ℕ
second = 1000000

-- s.replace("Z", "+00:00")
unfoldable pub replace_z : String → String
replace_z String.[] = ""
replace_z (String.◌∷◌ c s) =
    let rest = replace_z s in if eqb (code c) b'Z' then "+00:00" ++ rest else String.◌∷◌ c rest

-- str(value or "")
unfoldable pub str_or_empty : Python → Json → String
str_or_empty python value = if truthy value then python.str value else ""
