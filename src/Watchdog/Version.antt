-- ===== src/Watchdog/Version.antt =====
-- The versions of the runner.
use Prim.Native.Char.{code}
use desktop_pc24x7_runtime.Prelude.{
  ℕ, Bool, not, ◌&&◌, ◌||◌, List, [], ◌∷◌, String, all, eqb, ltb, if◌then◌else◌,
}
use desktop_pc24x7_runtime.Result.{Result, ok, watchdog_error, raise, raise_if, ◌>>=◌, ◌>>◌}
use desktop_pc24x7_runtime.Watchdog.Host.{Host}

abbrev pub min_supported_runner_version : String
min_supported_runner_version = "2.337.0"

abbrev pub min_supported_parts : ℕ × ℕ × ℕ
min_supported_parts = (2, 337, 0)

-- s.split(".")
unfoldable pub split_dot : String → String × List String
split_dot String.[] = ("", [])
split_dot (String.◌∷◌ c s) =
    let (part, parts) = split_dot s in
    if eqb (code c) b'.' then ("", part ∷ parts) else (String.◌∷◌ c part, parts)

-- a < b of two tuples.
abbrev pub is_older : ℕ × ℕ × ℕ → ℕ × ℕ × ℕ → Bool
is_older (a, b, c) (a', b', c') = ltb a a' || (eqb a a' && (ltb b b' || (eqb b b' && ltb c c')))

module _ {W : Type 0} (host : Host W) where
  open host use {python}

  unfoldable pub parse_runner_version : String → Result (ℕ × ℕ × ℕ)
  unfolding split_dot
  parse_runner_version value =
      let (part, parts) = split_dot (python.strip value) in parse (part ∷ parts)
    where
      parse : List String → Result (ℕ × ℕ × ℕ)
      parse (a ∷ b ∷ c ∷ []) = do
        raise_if (not (all host.isdigit (a ∷ b ∷ c ∷ []))) watchdog_error "runner_version_invalid"
        major ← host.int a
        minor ← host.int b
        patch ← host.int c
        ok (major, minor, patch)
      parse _ = raise watchdog_error "runner_version_invalid"
