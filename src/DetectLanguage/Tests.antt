-- ===== src/DetectLanguage/Tests.antt =====
-- lib/detectLanguage.ts: a short email in Malay, with a placeholder in it; letters are ASCII here.
use aimail.Base.{
  codes, true, false, some, map, ◌&&◌, ◌||◌, leb, text_eq_instance, ◌+◌, ◌≡◌, ◌≢◌, ◌⊎◌, ◌<◌, refl,
  if◌then◌else◌,
}
use aimail.Demo.PageTypes.{malay, english}
use aimail.DetectLanguage.{
  Unicode, count, main_language, needs_translation, needs_with, main_of, reader_count, is_mixed,
  clean_from, skip_of, placeholder_tail, capitals_tail, digits_tail, literal_tail, first_of,
  runs_from, end_run, points_after, words_of, count_in, english_words, malay_words, space_parts,
  add_char,
}
use aimail.DetectLanguage.Offers.{main_language-offers}

abbrev ascii : Unicode
ascii = record {
  is_letter = λ c. leb b'a' c && leb c b'z' || leb b'A' c && leb c b'Z';
  is_latin = λ c. true;
  is_han = λ c. false;
  lower_case = map (λ c. if leb b'A' c && leb c b'Z' then c + 32 else c);
}

cleaned : clean_from 0 (codes "Sila [NAME_1] x [a]") ≡ codes "Sila   x [a]"
unfolding clean_from skip_of placeholder_tail capitals_tail digits_tail literal_tail first_of
cleaned = refl

in_malay : main_language ascii (codes "Sila [NAME_1] terima kasih") ≡ some malay
unfolding main_language main_of count clean_from skip_of placeholder_tail capitals_tail digits_tail
    literal_tail first_of runs_from end_run points_after words_of count_in english_words malay_words
    space_parts add_char
in_malay = refl

-- As much Malay as English, one word of each: its main language is said to be English, and yet a
-- reader of Malay is not offered a translation.
tie_not_offered : needs_translation ascii (codes "Sila and") malay ≡ false
unfolding needs_translation needs_with reader_count is_mixed count clean_from skip_of
    placeholder_tail capitals_tail digits_tail literal_tail first_of runs_from end_run points_after
    words_of count_in english_words malay_words space_parts add_char
tie_not_offered = refl

malay≢english : malay ≢ english
malay≢english e = cc

main_language-offers_example :
    (needs_translation ascii (codes "Sila [NAME_1] terima kasih") english ≡ true)
    ⊎ (((count ascii (codes "Sila [NAME_1] terima kasih")).english_count
          ≡ (count ascii (codes "Sila [NAME_1] terima kasih")).malay_count)
        × ((count ascii (codes "Sila [NAME_1] terima kasih")).malay_count < 3))
main_language-offers_example =
    main_language-offers ascii (codes "Sila [NAME_1] terima kasih") english malay in_malay
      malay≢english
