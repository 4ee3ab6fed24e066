-- ===== src/Text.antt =====
-- What the program uses of Go's package strings, on the code points of a string.
use Prim.Native.Char.{code}
use sandbox_mommy.Base.{
  ℕ, ◌+◌, String, Bool, true, false, ◌&&◌, ◌||◌, List, [], ◌∷◌, map, ◌≡◌, refl, if◌then◌else◌,
}
use sandbox_mommy.Base.Int.{leb, eqb}

abbrev pub codes : String → List ℕ
codes String.[] = []
codes (String.◌∷◌ c s) = code c ∷ codes s

abbrev pub equal_codes : List ℕ → List ℕ → Bool
equal_codes [] [] = true
equal_codes (a ∷ cs) (b ∷ ds) = eqb a b && equal_codes cs ds
equal_codes _ _ = false

-- `unicode.ToLower` as far as its result is an ASCII character: besides A to Z, only U+0130 and
-- U+212A have a lower case in ASCII. Every other character stays what it is.
abbrev pub to_lower_code : ℕ → ℕ
to_lower_code c =
    if leb b'A' c && leb c b'Z'
    then c + 32
    else if eqb c 304
    then b'i'
    else if eqb c 8490
    then b'k'
    else c

-- `strings.ToLower(s)`
abbrev pub lower_codes : String → List ℕ
lower_codes s = map to_lower_code (codes s)

-- `strings.HasPrefix` and `strings.Contains`
abbrev pub has_prefix : List ℕ → List ℕ → Bool
has_prefix s [] = true
has_prefix [] (_ ∷ _) = false
has_prefix (c ∷ s) (d ∷ p) = eqb c d && has_prefix s p

abbrev pub contains_codes : List ℕ → List ℕ → Bool
contains_codes [] p = has_prefix [] p
contains_codes (c ∷ s) p = has_prefix (c ∷ s) p || contains_codes s p

contains_test : contains_codes (lower_codes "keep-alive, Upgrade") (codes "upgrade") ≡ true
contains_test = refl
