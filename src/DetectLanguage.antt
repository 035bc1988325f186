-- ===== src/DetectLanguage.antt =====
-- lib/detectLanguage.ts: the language that most of a text is in, and whether to offer a translation.
-- The classes of Unicode and lower case are parameters, on code points, as the flag `u` reads a text.
use aimail.Base.{
  ℕ, zero, suc, ◌+◌, ◌-◌, ◌*◌, Bool, true, false, not, ◌&&◌, ◌||◌, Option, none, some, List, [],
  ◌∷◌, ◌++◌, Text, codes, text_eq_instance, map, any, filter, length, includes, ltb, leb, ◌==◌,
  if◌then◌else◌,
}
use aimail.Demo.PageTypes.{Language, english, malay, chinese}
pub mod Offers
pub mod Tests

pub record Unicode : Type 0 where
  pub is_letter : ℕ → Bool
  pub is_latin : ℕ → Bool
  pub is_han : ℕ → Bool
  pub lower_case : Text → Text

-- The code points of a text's code units.
unfoldable pub points_after : Option ℕ → Text → List ℕ
points_after none [] = []
points_after (some high) [] = high ∷ []
points_after none (c ∷ text) =
    if leb 0xd800 c && leb c 0xdbff then points_after (some c) text else c ∷ points_after none text
points_after (some high) (c ∷ text) =
    if leb 0xdc00 c && leb c 0xdfff
    then (0x10000 + (high - 0xd800) * 0x400 + (c - 0xdc00)) ∷ points_after none text
    else high
      ∷ (if leb 0xd800 c && leb c 0xdbff
          then points_after (some c) text
          else c ∷ points_after none text)

-- `split(" ")`.
unfoldable pub add_char : ℕ → List Text → List Text
add_char c [] = (c ∷ []) ∷ []
add_char c (part ∷ parts) = (c ∷ part) ∷ parts

unfoldable pub space_parts : Text → List Text
space_parts [] = [] ∷ []
space_parts (c ∷ text) =
    let rest = space_parts text in if c == 32 then [] ∷ rest else add_char c rest

unfoldable pub english_words : List Text
english_words = space_parts (
    codes
      "the and to of you is for in that this with we your please thank thanks are be have will our on it at as from can if would i")

unfoldable pub malay_words : List Text
malay_words = space_parts (
    codes
      "dan yang untuk dengan ini itu tidak anda saya kami ada pada akan dari boleh sila terima kasih adalah dalam kepada telah sudah juga atau bagi oleh mohon")

-- `PLACEHOLDERS` after its bracket: how much of the text a match takes.
unfoldable pub digits_tail : ℕ → Text → Option ℕ
digits_tail n [] = none
digits_tail n (c ∷ text) =
    let more = digits_tail (suc n) text in
    if leb b'0' c && leb c b'9' then more else if c == b']' then some (suc n) else none

unfoldable pub capitals_tail : Bool → ℕ → Text → Option ℕ
capitals_tail has_one n [] = none
capitals_tail has_one n (c ∷ text) =
    let more = capitals_tail true (suc n) text in
    if leb b'A' c && leb c b'Z' || c == b'_'
    then more
    else if has_one
    then digits_tail n (c ∷ text)
    else none

unfoldable pub literal_tail : Text → ℕ → Text → Option ℕ
literal_tail [] n text = some n
literal_tail (d ∷ word) n [] = none
literal_tail (d ∷ word) n (c ∷ text) =
    let more = literal_tail word (suc n) text in if c == d then more else none

unfoldable pub first_of : Option ℕ → Option ℕ → Option ℕ
first_of none b = b
first_of (some a) b = some a

unfoldable pub placeholder_tail : Text → Option ℕ
placeholder_tail text =
    first_of (capitals_tail false 0 text) (literal_tail (codes "Redacted]") 0 text)

-- `replace(PLACEHOLDERS, " ")`, with how much of the text is in a match.
unfoldable pub skip_of : ℕ → Option ℕ → Option ℕ
skip_of c none = none
skip_of c (some n) = if c == b'[' then some n else none

unfoldable pub clean_from : ℕ → Text → Text
clean_from skip [] = []
clean_from (suc skip) (c ∷ text) = clean_from skip text
clean_from zero (c ∷ text) = elim (skip_of c (placeholder_tail text)) [
  | none ↦ c ∷ clean_from zero text
  | some n ↦ 32 ∷ clean_from n text
]

pub record Counts : Type 0 where
  pub english_count : ℕ
  pub malay_count : ℕ
  pub has_han : Bool
  pub has_other : Bool

-- `match(/\p{L}+/gu)`: the runs of letters.
unfoldable pub end_run : List ℕ → List (List ℕ) → List (List ℕ)
end_run [] runs = runs
end_run (c ∷ run) runs = (c ∷ run) ∷ runs

module _ (unicode : Unicode) where
  unfoldable pub runs_from : List ℕ → List ℕ → List (List ℕ)
  runs_from run [] = end_run run []
  runs_from run (c ∷ text) =
      let more = runs_from (run ++ c ∷ []) text in
      let rest = runs_from [] text in if unicode.is_letter c then more else end_run run rest

  abbrev pub is_other : ℕ → Bool
  is_other c = unicode.is_letter c && not (unicode.is_latin c) && not (unicode.is_han c)

  unfoldable pub words_of : Text → List (List ℕ)
  words_of clean = runs_from [] (points_after none (unicode.lower_case clean))

  unfoldable pub count_in : List Text → Text → ℕ
  count_in list clean = length (filter (λ word. includes list word) (words_of clean))

  unfoldable pub count : Text → Counts
  count text = record {
    english_count = count_in english_words (clean_from 0 text);
    malay_count = count_in malay_words (clean_from 0 text);
    has_han = any unicode.is_han (points_after none (clean_from 0 text));
    has_other = any is_other (points_after none (clean_from 0 text));
  }

-- `minority / total >= 0.2`, without the division.
unfoldable pub is_mixed : ℕ → ℕ → Bool
is_mixed minority total = leb 3 minority && leb total (5 * minority)

unfoldable pub main_of : Counts → Option Language
main_of c =
    if c.has_han
    then some chinese
    else if c.english_count + c.malay_count == 0
    then none
    else if ltb c.english_count c.malay_count
    then some malay
    else some english

unfoldable pub reader_count : Counts → Language → ℕ
reader_count c malay = c.malay_count
reader_count c _ = c.english_count

abbrev pub is_chinese : Language → Bool
is_chinese chinese = true
is_chinese _ = false

unfoldable pub needs_with : Counts → Language → Bool
needs_with c reader =
    let total = c.english_count + c.malay_count in
    let mine = reader_count c reader in
    if c.has_other
    then true
    else if is_chinese reader
    then ltb 0 total
    else if c.has_han
    then true
    else if total == 0
    then false
    else ltb mine (total - mine) || is_mixed (total - mine) total

unfoldable pub main_language : Unicode → Text → Option Language
main_language unicode text = main_of (count unicode text)

unfoldable pub needs_translation : Unicode → Text → Language → Bool
needs_translation unicode text reader = needs_with (count unicode text) reader
