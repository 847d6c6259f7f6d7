-- ===== src/Capacity/Pattern.antt =====
-- The regular expressions of the capacity scripts: a class of characters for each place.
use Prim.Native.Char.{code}
use desktop_pc24x7_runtime.Prelude.{
  ℕ, zero, suc, Bool, true, false, ◌&&◌, ◌||◌, List, [], ◌∷◌, ◌++◌, String, eqb, leb,
}

abbrev pub Place : Type 0
Place = ℕ → Bool

abbrev pub digit : Place
digit c = leb b'0' c && leb c b'9'

abbrev pub positive_digit : Place
positive_digit c = leb b'1' c && leb c b'9'

-- [0-9a-f]
abbrev pub hex : Place
hex c = digit c || (leb b'a' c && leb c b'f')

abbrev pub exactly : ℕ → Place
exactly b c = eqb c b

-- p{n}
abbrev pub times : ℕ → Place → List Place
times zero p = []
times (suc n) p = p ∷ times n p

unfoldable pub fits : List Place → String → Bool
fits [] String.[] = true
fits [] (String.◌∷◌ c s) = false
fits (p ∷ ps) String.[] = false
fits (p ∷ ps) (String.◌∷◌ c s) = let rest = fits ps s in p (code c) && rest

-- At most n characters, all of them in the class.
unfoldable pub at_most : ℕ → Place → String → Bool
at_most n p String.[] = true
at_most zero p (String.◌∷◌ c s) = false
at_most (suc n) p (String.◌∷◌ c s) = let rest = at_most n p s in p (code c) && rest

-- [0-9a-f]{40}
unfoldable pub is_sha : String → Bool
unfolding fits
is_sha = fits (times 40 hex)

abbrev dash : List Place
dash = exactly b'-' ∷ []

-- [0-9a-f]{8}-[0-9a-f]{4}-4[0-9a-f]{3}-[89ab][0-9a-f]{3}-[0-9a-f]{12}
unfoldable pub is_request_id : String → Bool
unfolding fits
is_request_id = fits (
    times 8 hex
    ++ (dash
        ++ (times 4 hex
            ++ (dash
                ++ (exactly b'4'
                    ∷ (times 3 hex
                        ++ (dash
                            ++ ((λ c. eqb c b'8' || (eqb c b'9' || (eqb c b'a' || eqb c b'b')))
                                ∷ (times 3 hex ++ (dash ++ times 12 hex))))))))))

-- [1-9][0-9]{0,19}
unfoldable pub is_identifier : String → Bool
unfolding at_most
is_identifier String.[] = false
is_identifier (String.◌∷◌ c s) = let rest = at_most 19 digit s in positive_digit (code c) && rest

-- \d{4}-\d{2}-\d{2}T\d{2}:\d{2}:\d{2}Z; another script's digits fail here, and in fromisoformat there.
unfoldable pub is_time : String → Bool
unfolding fits
is_time = fits (
    times 4 digit
    ++ (dash
        ++ (times 2 digit
            ++ (dash
                ++ (times 2 digit
                    ++ (exactly b'T'
                        ∷ (times 2 digit
                            ++ (exactly b':'
                                ∷ (times 2 digit
                                    ++ (exactly b':'
                                        ∷ (times 2 digit ++ (exactly b'Z' ∷ []))))))))))))
