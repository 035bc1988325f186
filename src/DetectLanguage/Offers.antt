-- ===== src/DetectLanguage/Offers.antt =====
-- lib/detectLanguage.ts: when a translation is offered.
use aimail.Base.{
  ℕ, ◌+◌, ◌-◌, ◌*◌, ◌≤◌, ◌<◌, Bool, true, false, ◌||◌, some, Text, ltb, leb, ◌==◌, ◌≡◌, ◌⊎◌, ◌↔◌,
  inl, inr, refl, sym, ◌∙◌, ◌≢◌, arith, Bool-cases, if◌then◌else◌,
}
use aimail.Demo.PageTypes.{Language, english, malay, chinese}
use aimail.DetectLanguage.{
  Unicode, Counts, count, is_mixed, main_of, reader_count, needs_with, main_language,
  needs_translation,
}

-- The words of the languages told apart that are not in the reader's.
unfoldable pub foreign : Counts → Language → ℕ
foreign c malay = c.english_count
foreign c english = c.malay_count
foreign c chinese = c.english_count + c.malay_count

-- Too few, or too small a share, to be a second language.
unfoldable pub IsNegligible : ℕ → ℕ → Type 0
IsNegligible few total = (few < 3) ⊎ (5 * few < total)

-- A text that the reader is not offered: no letters of other scripts, and no words of other languages
-- for a reader of Chinese; for another no Chinese, and of the foreign words no more than of the
-- reader's own, and too few to count.
unfoldable pub IsReaders : Counts → Language → Type 0
IsReaders c chinese = (c.has_other ≡ false) × (foreign c chinese ≡ 0)
IsReaders c reader =
    (c.has_other ≡ false)
    × (c.has_han ≡ false)
    × (foreign c reader ≤ reader_count c reader)
    × IsNegligible (foreign c reader) (c.english_count + c.malay_count)

is_mixed_not : (few total : ℕ) → is_mixed few total ≡ false → IsNegligible few total
unfolding is_mixed IsNegligible
is_mixed_not few total h = elim (Bool-cases (leb 3 few)) [
  | inl k ↦ inr (ground arith)
  | inr k ↦ inl (ground arith)
]

not_mixed : (few total : ℕ) → IsNegligible few total → is_mixed few total ≡ false
unfolding is_mixed IsNegligible
not_mixed few total (inl h) = ground arith
not_mixed few total (inr h) = ground arith

-- The test of a reader of English or Malay, from all the words, the reader's own and the others.
unfoldable pub offers : Bool → Bool → ℕ → ℕ → ℕ → Bool
offers other han total mine few =
    if other
    then true
    else if han
    then true
    else if total == 0
    then false
    else ltb mine few || is_mixed few total

refused_lem :
    (other han : Bool) (total mine few : ℕ)
    → total ≡ mine + few
    → offers other han total mine few ≡ false
    → (other ≡ false) × (han ≡ false) × (few ≤ mine) × IsNegligible few total
unfolding offers IsNegligible
refused_lem true han total mine few t h = absurd (ground arith)
refused_lem false true total mine few t h = absurd (ground arith)
refused_lem false false total mine few t h = elim (Bool-cases (total == 0)) [
  | inl k ↦ let e : total ≡ 0 = ground arith in (refl, refl, omega arith, inl (omega arith))
  | inr k ↦ (refl, refl, ground arith, is_mixed_not few total (ground arith))
]

kept_lem :
    (other han : Bool) (total mine few : ℕ)
    → (other ≡ false) × (han ≡ false) × (few ≤ mine) × IsNegligible few total
    → offers other han total mine few ≡ false
unfolding offers
kept_lem other han total mine few (a, b, le, n) = let m = not_mixed few total n in ground arith

needs-english :
    (c : Counts)
    → needs_with c english
      ≡ offers c.has_other c.has_han (c.english_count + c.malay_count) c.english_count c.malay_count
unfolding needs_with offers reader_count
needs-english c =
    let e : c.english_count + c.malay_count - c.english_count ≡ c.malay_count = omega arith in
    rw e refl

needs-malay :
    (c : Counts)
    → needs_with c malay
      ≡ offers c.has_other c.has_han (c.english_count + c.malay_count) c.malay_count c.english_count
unfolding needs_with offers reader_count
needs-malay c =
    let e : c.english_count + c.malay_count - c.malay_count ≡ c.english_count = omega arith in
    rw e refl

chinese_to :
    (c : Counts)
    → needs_with c chinese ≡ false
    → (c.has_other ≡ false) × (c.english_count + c.malay_count ≡ 0)
unfolding needs_with
chinese_to c h = elim (Bool-cases c.has_other) [
  | inl o ↦ absurd (ground arith)
  | inr o ↦ (o, ground arith)
]

chinese_from :
    (c : Counts)
    → (c.has_other ≡ false) × (c.english_count + c.malay_count ≡ 0)
    → needs_with c chinese ≡ false
unfolding needs_with
chinese_from c (o, z) = ground arith

needs_iff : (c : Counts) (reader : Language) → (needs_with c reader ≡ false) ↔ IsReaders c reader
unfolding IsReaders foreign reader_count
needs_iff c english = (
  λ h. refused_lem c.has_other c.has_han _ _ _ refl (sym (needs-english c) ∙ h),
  λ h. needs-english c ∙ kept_lem c.has_other c.has_han _ _ _ h,
)
needs_iff c malay = (
  λ h. refused_lem c.has_other c.has_han _ _ _ (omega arith) (sym (needs-malay c) ∙ h),
  λ h. needs-malay c ∙ kept_lem c.has_other c.has_han _ _ _ h,
)
needs_iff c chinese = (chinese_to c, chinese_from c)

main_plain :
    (c : Counts) (main : Language)
    → c.has_han ≡ false
    → main_of c ≡ some main
    → (0 < c.english_count + c.malay_count)
      × (((main ≡ malay) × (c.english_count < c.malay_count))
          ⊎ ((main ≡ english) × (c.malay_count ≤ c.english_count)))
unfolding main_of
main_plain c main h e = elim (Bool-cases (c.english_count + c.malay_count == 0)) [
  | inl k ↦ absurd (ground arith)
  | inr k ↦ elim (Bool-cases (ltb c.english_count c.malay_count)) [
    | inl l ↦ (ground arith, inl (ground arith, ground arith))
    | inr l ↦ (ground arith, inr (ground arith, ground arith))
  ]
]

han_main :
    (c : Counts) (main : Language) → c.has_han ≡ true → main_of c ≡ some main → main ≡ chinese
unfolding main_of
han_main c main h e = ground arith

tie_or_not :
    (c : Counts) (reader main : Language)
    → main_of c ≡ some main
    → main ≢ reader
    → IsReaders c reader
    → (c.english_count ≡ c.malay_count) × (c.malay_count < 3)
unfolding IsReaders foreign reader_count IsNegligible
tie_or_not c english main e ne r =
    let m = main_plain c main r.1 e in let le = r.2 in absurd (ground arith)
tie_or_not c malay main e ne r =
    let m = main_plain c main r.1 e in let le = r.2 in let n = r.3 in ground arith
tie_or_not c chinese main e ne r = elim (Bool-cases c.has_han) [
  | inl h ↦ absurd (ne (han_main c main h e))
  | inr h ↦ let m = main_plain c main h e in let z = r.1 in absurd (omega (arith, m.0))
]

main_offers :
    (c : Counts) (reader main : Language)
    → main_of c ≡ some main
    → main ≢ reader
    → (needs_with c reader ≡ true) ⊎ ((c.english_count ≡ c.malay_count) × (c.malay_count < 3))
main_offers c reader main e ne = elim (Bool-cases (needs_with c reader)) [
  | inl h ↦ inl h
  | inr h ↦ inr (tie_or_not c reader main e ne ((needs_iff c reader).0 h))
]

-- When a text has a main language, and it is not the reader's, a translation is offered; but for a
-- text with as many Malay words as English ones, and less than three of each, it may not be.
pub main_language-offers :
    (unicode : Unicode) (text : Text) (reader main : Language)
    → main_language unicode text ≡ some main
    → main ≢ reader
    → (needs_translation unicode text reader ≡ true)
      ⊎ (((count unicode text).english_count ≡ (count unicode text).malay_count)
          × ((count unicode text).malay_count < 3))
unfolding needs_translation main_language
main_language-offers unicode text reader main e ne =
    main_offers (count unicode text) reader main e ne
