-- ===== src/DraftGuards/Laws.antt =====
-- lib/draftGuards.ts: the searches for blanks find every one.
use aimail.Base.{
  ℕ, ◌+◌, ◌≡◌, ◌≢◌, ◌↔◌, refl, sym, ap, ◌∙◌, true, some, [], ◌∷◌, ◌++◌, Text, arith, Option-cases,
  inl, inr, length, all,
}
use aimail.Masking.{span}
use aimail.Masking.Laws.{span-append, span-all, span_of_run, match_all-eq-nil_iff}
use aimail.DraftGuards.{is_blank_char, blank_tail, template_blank, find_unfilled_blanks}

-- A template blank with the name `name`, and what follows it.
abbrev pub blank_then : Text → Text → Text
blank_then name after = b'{' ∷ b'{' ∷ (name ++ (b'}' ∷ b'}' ∷ after))

template_blank-finds :
    (name after : Text)
    → all is_blank_char name ≡ true
    → template_blank (blank_then name after) ≡ some (length name + 4)
unfolding template_blank blank_tail
template_blank-finds name after h =
    rw (span_of_run is_blank_char name b'}' (b'}' ∷ after) h (unfold is_blank_char in refl)) refl

blank_tail-shape :
    (run rest : Text) (n : ℕ)
    → blank_tail (run, rest) ≡ some n
    → (after : Text) × (rest ≡ b'}' ∷ b'}' ∷ after)
unfolding blank_tail
blank_tail-shape run [] n h = cc
blank_tail-shape run (d ∷ []) n h = cc
blank_tail-shape run (d ∷ e ∷ rest) n h = (rest, ground arith)

template_blank-open :
    (c d : ℕ) (s : Text) (n : ℕ)
    → template_blank (c ∷ d ∷ s) ≡ some n
    → (c ≡ b'{') × (d ≡ b'{') × (blank_tail (span is_blank_char s) ≡ some n)
unfolding template_blank
template_blank-open c d s n h = ground arith

template_blank-shape :
    (s : Text) (n : ℕ)
    → template_blank s ≡ some n
    → (name : Text) × (after : Text) × (s ≡ blank_then name after) × (all is_blank_char name ≡ true)
unfolding template_blank
template_blank-shape [] n h = cc
template_blank-shape (c ∷ []) n h = cc
template_blank-shape (c ∷ d ∷ s) n h =
    let (first, second, tail) = template_blank-open c d s n h in
    let (after, e) = blank_tail-shape (span is_blank_char s).0 (span is_blank_char s).1 n tail in
    (
      (span is_blank_char s).0,
      after,
      rw (first, second)
          (ap (λ r. b'{' ∷ b'{' ∷ r)
            (sym (span-append is_blank_char s) ∙ ap (λ r. (span is_blank_char s).0 ++ r) e)),
      span-all is_blank_char s,
    )

-- The search for blanks finds nothing exactly when no `{{name}}` stands in the draft, whatever its
-- name, which holds no brace.
find_unfilled_blanks-eq-nil_iff :
    (draft : Text)
    → (find_unfilled_blanks draft ≡ []) ↔ (
        (before name after : Text)
        → all is_blank_char name ≡ true
        → draft ≢ before ++ blank_then name after)
unfolding find_unfilled_blanks
find_unfilled_blanks-eq-nil_iff draft = (clear, empty)
  where
    clear :
        find_unfilled_blanks draft ≡ []
        → (before name after : Text) → all is_blank_char name ≡ true
        → draft ≢ before ++ blank_then name after
    clear h before name after free e = cc (
      template_blank-finds name after free,
      (match_all-eq-nil_iff template_blank draft).0 h before (blank_then name after) e (λ z. cc),
    )

    empty :
        ((before name after : Text)
          → all is_blank_char name ≡ true
          → draft ≢ before ++ blank_then name after)
        → find_unfilled_blanks draft ≡ []
    empty free = (match_all-eq-nil_iff template_blank draft).1 λ before after e ne.
        elim (Option-cases (template_blank after)) [
          | inl miss ↦ miss
          | inr (n, hit) ↦
              let (name, rest, shape, plain) = template_blank-shape after n hit in
              absurd (free before name rest plain (e ∙ ap (λ r. before ++ r) shape))
        ]
