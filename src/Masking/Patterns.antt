-- ===== src/Masking/Patterns.antt =====
-- Regular expressions with the flag `g`, as the functions `match`, `matchAll` and `replace` use them.
use aimail.Base.{
  ℕ, zero, suc, ◌-◌, Bool, true, false, ◌&&◌, Option, none, some, List, [], ◌∷◌, ◌++◌, Text, take,
  leb, ◌==◌, if◌then◌else◌,
}
use mathlib.Core.List.{reverse}

-- The length of the match at the front of a text. It is not 0 in any pattern of the source.
abbrev pub Pattern : Type 0
Pattern = Text → Option ℕ

abbrev cons_run : ℕ → Text × Text → Text × Text
cons_run c (run, rest) = (c ∷ run, rest)

-- The longest run at the front of characters that pass, and the rest.
unfoldable pub span : (ℕ → Bool) → Text → Text × Text
span p [] = ([], [])
span p (c ∷ s) = if p c then cons_run c (span p s) else ([], c ∷ s)

unfoldable pub starts_with : Text → Text → Bool
starts_with [] s = true
starts_with (c ∷ p) [] = false
starts_with (c ∷ p) (d ∷ s) = c == d && starts_with p s

unfoldable pub ends_with : Text → Text → Bool
ends_with p s = starts_with (reverse p) (reverse s)

unfoldable pub is_upper : ℕ → Bool
is_upper c = leb b'A' c && leb c b'Z'

unfoldable pub is_digit : ℕ → Bool
is_digit c = leb b'0' c && leb c b'9'

-- `text.match(pattern) ?? []`: the matches from left to right, which do not overlap. The number
-- counts the characters of the last match that are still to be passed over.
unfoldable pub match_all : Pattern → ℕ → Text → List Text
match_all m skip [] = []
match_all m (suc k) (c ∷ s) = match_all m k s
match_all m zero (c ∷ s) = elim (m (c ∷ s)) [
  | none ↦ match_all m zero s
  | some n ↦ take n (c ∷ s) ∷ match_all m (n - 1) s
]

-- `text.replace(pattern, f)`.
unfoldable pub replace : Pattern → (Text → Text) → ℕ → Text → Text
replace m f skip [] = []
replace m f (suc k) (c ∷ s) = replace m f k s
replace m f zero (c ∷ s) = elim (m (c ∷ s)) [
  | none ↦ c ∷ replace m f zero s
  | some n ↦ f (take n (c ∷ s)) ++ replace m f (n - 1) s
]
