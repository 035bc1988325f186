-- ===== src/Details/Segments.antt =====
-- lib/details.ts: the marked segments read, one after the other, as the restored text.
use mathlib.Core.List.{append_assoc}
use aimail.Base.{
  ℕ, zero, suc, ◌-◌, ◌≡◌, refl, ap, ◌∙◌, Bool, true, false, some, List, [], ◌∷◌, ◌++◌, Text,
  text_eq_instance, Option-cases, inl, inr, take, arith,
}
use aimail.Base.Maps.{get}
use aimail.Masking.{replace, placeholder_pattern}
use aimail.Masking.Laws.{placeholder_pattern-pos}
use aimail.Details.{
  DetailValues, Segment, shown, restore_details, plain, segments_from, detail_segments,
}

-- The segments' texts, joined.
pub joined : List Segment → Text
joined [] = []
joined (s ∷ segments) = s.text ++ joined segments

joined-plain :
    (since : Text) (segments : List Segment)
    → joined (plain since segments) ≡ since ++ joined segments
unfolding joined plain
joined-plain [] segments = refl
joined-plain (c ∷ since) segments = refl

length_of_match : (s : Text) (n : ℕ) → placeholder_pattern s ≡ some n → (k : ℕ) × (n ≡ suc k)
length_of_match s n h = (n - 1, omega (arith, placeholder_pattern-pos s n h))

-- What is left of a text when its first `n` characters are passed over.
abbrev rest_of : DetailValues → ℕ → Text → Text
rest_of values n s = replace placeholder_pattern (shown values) n s

-- What the loop keeps of the characters that it passes over.
abbrev kept : Bool → ℕ → Text → Text
kept true n s = take n s
kept false n s = []

kept-zero : (keep : Bool) (s : Text) → kept keep 0 s ≡ []
kept-zero true s = refl
kept-zero false s = refl

suc-sub_one : (k : ℕ) → suc k - 1 ≡ k
suc-sub_one k = omega arith

segments_from-joined :
    (values : DetailValues) (since : Text) (keep : Bool) (skip : ℕ) (s : Text)
    → joined (segments_from values since keep skip s)
      ≡ since ++ (kept keep skip s ++ rest_of values skip s)
unfolding segments_from replace shown joined
segments_from-joined values since true zero [] = joined-plain since []
segments_from-joined values since true (suc skip) [] = joined-plain since []
segments_from-joined values since false zero [] = joined-plain since []
segments_from-joined values since false (suc skip) [] = joined-plain since []
segments_from-joined values since true (suc skip) (c ∷ s) =
    segments_from-joined values (since ++ c ∷ []) true skip s
    ∙ append_assoc since (c ∷ []) (take skip s ++ rest_of values skip s)
segments_from-joined values since false (suc skip) (c ∷ s) =
    segments_from-joined values since false skip s
segments_from-joined values since keep zero (c ∷ s) =
    elim (Option-cases (placeholder_pattern (c ∷ s))) [
      | inl e ↦
          rw (segments_from, replace, e, kept-zero keep (c ∷ s))
            (segments_from-joined values (since ++ c ∷ []) true 0 s
              ∙ append_assoc since (c ∷ []) (rest_of values 0 s))
      | inr (n, e) ↦
          let (k, q) = length_of_match (c ∷ s) n e in
          let at_match : placeholder_pattern (c ∷ s) ≡ some (suc k) = e ∙ ap some q in
          elim (Option-cases (get (c ∷ take k s) values)) [
            | inl unknown ↦
                rw
                  (segments_from, replace, at_match, kept-zero keep (c ∷ s), unknown, suc-sub_one k)
                  (segments_from-joined values (since ++ c ∷ []) true k s
                    ∙ append_assoc since (c ∷ []) (take k s ++ rest_of values k s))
            | inr (value, known) ↦
                rw (segments_from, replace, at_match, kept-zero keep (c ∷ s), known, suc-sub_one k)
                  (joined-plain since _
                    ∙ ap (λ r. since ++ (value ++ r)) (segments_from-joined values [] false k s))
          ]
    ]

-- The segments, joined, are the text with every known placeholder filled in: marking the details
-- loses nothing, adds nothing and keeps the order.
pub joined-detail_segments :
    (text : Text) (values : DetailValues)
    → joined (detail_segments text values) ≡ restore_details text values
unfolding detail_segments restore_details
joined-detail_segments text values = segments_from-joined values [] true 0 text
