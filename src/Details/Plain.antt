-- ===== src/Details/Plain.antt =====
-- lib/details.ts: a text of which no detail is known is shown as it is stored.
use aimail.Base.{
  ℕ, ◌≤◌, zero, suc, ◌-◌, Option, none, some, [], ◌∷◌, ◌++◌, Text, take, drop, ◌≡◌, refl, sym, ap,
  ◌∙◌, arith, take-append-drop,
}
use aimail.Masking.{Pattern, replace, placeholder_pattern}
use aimail.Masking.Laws.{placeholder_pattern-pos}
use aimail.Details.{restore_details, shown, detail_values, put_all}
use aimail.Base.Maps.{get}

drop-drop : (s : Text) (n : ℕ) → 1 ≤ n → (c : ℕ) → drop n (c ∷ s) ≡ drop (n - 1) s
drop-drop s zero h c = absurd (omega (arith, h))
drop-drop s (suc n) h c = ap (λ k. drop k s) (omega arith)

-- What replaces a match by itself leaves what is not yet passed over.
replace_same :
    (m : Pattern) (f : Text → Text) (skip : ℕ) (s : Text)
    → ((t : Text) (n : ℕ) → m t ≡ some n → 1 ≤ n)
    → ((t : Text) → f t ≡ t)
    → replace m f skip s ≡ drop skip s
unfolding replace
replace_same m f zero [] pos same = refl
replace_same m f (suc k) [] pos same = refl
replace_same m f (suc k) (c ∷ s) pos same = replace_same m f k s pos same
replace_same m f zero (c ∷ s) pos same =
    at_match (m (c ∷ s)) refl (λ k. replace_same m f k s pos same)
  where
    at_match :
        (o : Option ℕ)
        → m (c ∷ s) ≡ o
        → ((k : ℕ) → replace m f k s ≡ drop k s)
        → elim o [
          | none ↦ c ∷ replace m f zero s
          | some n ↦ f (take n (c ∷ s)) ++ replace m f (n - 1) s
        ]
          ≡ c ∷ s
    at_match none e later = ap (λ r. c ∷ r) (later 0)
    at_match (some n) e later =
        ap (λ r. f (take n (c ∷ s)) ++ r) (later (n - 1))
        ∙ ap (λ r. r ++ drop (n - 1) s) (same (take n (c ∷ s)))
        ∙ ap (λ r. take n (c ∷ s) ++ r) (sym (drop-drop s n (pos (c ∷ s) n e) c))
        ∙ take-append-drop n (c ∷ s)

restore_details-nil : (text : Text) → restore_details text [] ≡ text
unfolding restore_details shown get
restore_details-nil text =
    replace_same placeholder_pattern (shown []) 0 text placeholder_pattern-pos (λ t. refl)

pub restore_details-no_details : (text : Text) → restore_details text (detail_values []) ≡ text
unfolding detail_values put_all
restore_details-no_details text = restore_details-nil text
