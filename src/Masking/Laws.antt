-- ===== src/Masking/Laws.antt =====
-- lib/masking.ts: what the patterns match, and what the loops over a text find.
use aimail.Base.{
  ℕ, ◌≤◌, ◌≡◌, refl, Bool, true, false, none, some, [], ◌∷◌, ◌++◌, Text, arith, Option-cases,
  Bool-cases, all, ap, ◌≢◌, ◌↔◌, inl, inr, length,
}
use aimail.Masking.{
  Pattern, span, is_upper, is_digit, match_all, number_tail, numbered, placeholder_tail,
  placeholder_pattern,
}

number_tail-pos : (k : ℕ) (p : Text × Text) (n : ℕ) → number_tail k p ≡ some n → 1 ≤ n
unfolding number_tail
number_tail-pos k (digits, []) n h = cc
number_tail-pos k (digits, d ∷ rest) n h = ground arith

numbered-pos : (k : ℕ) (s : Text) (n : ℕ) → numbered k s ≡ some n → 1 ≤ n
unfolding numbered
numbered-pos k [] n h = cc
numbered-pos k (c ∷ s) n h = ground (arith, number_tail-pos k (span is_digit s) n)

placeholder_tail-pos : (p : Text × Text) (n : ℕ) → placeholder_tail p ≡ some n → 1 ≤ n
unfolding placeholder_tail
placeholder_tail-pos (kind, rest) n h = ground (arith, numbered-pos (length kind) rest n)

-- A placeholder is not empty.
pub placeholder_pattern-pos : (s : Text) (n : ℕ) → placeholder_pattern s ≡ some n → 1 ≤ n
unfolding placeholder_pattern
placeholder_pattern-pos [] n h = cc
placeholder_pattern-pos (c ∷ s) n h = ground (arith, placeholder_tail-pos (span is_upper s) n)

-- A run and what is left of it make up the text.
pub span-append : (p : ℕ → Bool) (s : Text) → (span p s).0 ++ (span p s).1 ≡ s
unfolding span
span-append p [] = refl
span-append p (c ∷ s) = elim (Bool-cases (p c)) [
  | inl e ↦ rw e (ap (λ r. c ∷ r) (span-append p s))
  | inr e ↦ rw e refl
]

pub span-all : (p : ℕ → Bool) (s : Text) → all p (span p s).0 ≡ true
unfolding span
span-all p [] = refl
span-all p (c ∷ s) = elim (Bool-cases (p c)) [
  | inl e ↦ rw e (ground (arith, span-all p s))
  | inr e ↦ rw e refl
]

-- A run that a character ends.
pub span_of_run :
    (p : ℕ → Bool) (run : Text) (c : ℕ) (s : Text)
    → all p run ≡ true
    → p c ≡ false
    → span p (run ++ c ∷ s) ≡ (run, c ∷ s)
unfolding span
span_of_run p [] c s h e = rw e refl
span_of_run p (d ∷ run) c s h e =
    let first : p d ≡ true = ground arith in
    let more = span_of_run p run c s (ground arith) e in rw (first, more) refl

match_all-nothing :
    (m : Pattern) (before after : Text)
    → match_all m 0 (before ++ after) ≡ []
    → after ≢ []
    → m after ≡ none
unfolding match_all
match_all-nothing m [] [] h ne = absurd (ne refl)
match_all-nothing m [] (c ∷ s) h ne = elim (Option-cases (m (c ∷ s))) [
  | inl e ↦ e
  | inr (n, e) ↦ absurd (ground (arith, e, h))
]
match_all-nothing m (b ∷ before) after h ne = elim (Option-cases (m (b ∷ before ++ after))) [
  | inl e ↦ match_all-nothing m before after (ground (arith, e, h)) ne
  | inr (n, e) ↦ absurd (ground (arith, e, h))
]

match_all_of_nothing :
    (m : Pattern) (s : Text)
    → ((before after : Text) → s ≡ before ++ after → after ≢ [] → m after ≡ none)
    → match_all m 0 s ≡ []
unfolding match_all
match_all_of_nothing m [] h = refl
match_all_of_nothing m (c ∷ s) h =
    let here : m (c ∷ s) ≡ none = h [] (c ∷ s) refl (λ e. cc) in
    let later : match_all m 0 s ≡ [] =
      match_all_of_nothing m s (λ before after e. h (c ∷ before) after (ap (λ r. c ∷ r) e)) in
    rw (match_all, here) later

-- The loop finds nothing exactly when the pattern matches nowhere.
pub match_all-eq-nil_iff :
    (m : Pattern) (s : Text)
    → (match_all m 0 s ≡ [])
      ↔ ((before after : Text) → s ≡ before ++ after → after ≢ [] → m after ≡ none)
match_all-eq-nil_iff m s =
    (λ h before after e. match_all-nothing m before after (rw e at h), match_all_of_nothing m s)
