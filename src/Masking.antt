-- ===== src/Masking.antt =====
-- lib/masking.ts: the placeholders and redaction markers in a text. A global regular expression is
-- a function that gives the length of its match at the front of a text, and the two loops that the
-- string methods make with it. In the patterns of the source no character class holds the
-- character that follows it, so a greedy run matches in one way only and nothing backtracks.
pub mod Patterns
pub mod Laws
pub mod Tests
unfoldable pub use Patterns.{
  Pattern, span, starts_with, match_all, replace, is_upper, is_digit, ends_with,
}
use aimail.Base.{
  ℕ, zero, suc, ◌+◌, ◌-◌, ◌≡◌, Bool, true, false, ◌&&◌, ◌||◌, Option, none, some, List, [], ◌∷◌,
  ◌++◌, Text, codes, text_eq, text_eq_instance, length, ltb, leb, ◌==◌, if◌then◌else◌, includes,
}

-- The kinds of PLACEHOLDER_SOURCE.
abbrev pub placeholder_kinds : List Text
placeholder_kinds =
    codes "PERSON"
    ∷ codes "EMAIL"
    ∷ codes "PHONE"
    ∷ codes "IC"
    ∷ codes "PASSPORT"
    ∷ codes "ACCOUNT"
    ∷ codes "CARD"
    ∷ codes "LOCATION"
    ∷ codes "ORG"
    ∷ []

is_kind : Text → Bool
is_kind kind = includes placeholder_kinds kind

-- `\d+\]` at the end of a placeholder whose kind has `n` letters.
number_tail : ℕ → Text × Text → Option ℕ
number_tail n (digits, []) = none
number_tail n (digits, d ∷ rest) =
    if ltb 0 (length digits) && d == b']' then some (n + length digits + 3) else none

-- `_\d+\]`.
numbered : ℕ → Text → Option ℕ
numbered n [] = none
numbered n (c ∷ s) = if c == b'_' then number_tail n (span is_digit s) else none

placeholder_tail : Text × Text → Option ℕ
placeholder_tail (kind, rest) = if is_kind kind then numbered (length kind) rest else none

-- `\[(?:PERSON|…|ORG)_\d+\]`.
pub placeholder_pattern : Pattern
placeholder_pattern [] = none
placeholder_pattern (c ∷ s) = if c == b'[' then placeholder_tail (span is_upper s) else none

-- `[A-Z_]`.
is_marker_char : ℕ → Bool
is_marker_char c = is_upper c || c == b'_'

-- A run of `[A-Z_]` that `[A-Z_]+_REDACTED` or `REDACTED` matches whole.
is_marker_word : Text → Bool
is_marker_word word =
    ends_with (codes "_REDACTED") word && ltb 9 (length word) || text_eq word (codes "REDACTED")

bracket_tail : Text × Text → Option ℕ
bracket_tail (word, []) = none
bracket_tail (word, d ∷ rest) =
    if is_marker_word word && d == b']' then some (length word + 2) else none

-- `\[(?:[A-Z_]+_REDACTED|Redacted|REDACTED)\]|\((?:hidden|name)\)`.
pub redaction_marker_pattern : Pattern
redaction_marker_pattern [] = none
redaction_marker_pattern (c ∷ s) =
    if c == b'['
    then (if starts_with (codes "Redacted]") s
        then some 10
        else bracket_tail (span is_marker_char s))
    else if c == b'(' && starts_with (codes "hidden)") s
    then some 8
    else if c == b'(' && starts_with (codes "name)") s
    then some 6
    else none

-- The pattern between `^` and `$`.
pub is_placeholder : Text → Bool
is_placeholder text = elim (placeholder_pattern text) [ none ↦ false | some n ↦ n == length text ]
