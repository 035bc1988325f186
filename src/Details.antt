-- ===== src/Details.antt =====
-- lib/details.ts: the real details in place of the placeholders that stored text carries.
pub mod Segments
pub mod Plain
pub mod Tests
use aimail.Base.{
  ℕ, zero, suc, ◌+◌, ◌-◌, Bool, true, false, not, ◌||◌, Option, none, some, List, [], ◌∷◌, ◌++◌,
  Text, text_eq_instance, or_else, is_some, any, String, take, if◌then◌else◌,
}
use aimail.Base.Maps.{get, put}
use aimail.Masking.{Pattern, match_all, replace, placeholder_pattern}

-- A detail of the service's answer (`Schemas["Detail"]`).
pub record Detail : Type 0 where
  pub placeholder : Text
  pub value : Text
  pub kind : String

-- The real values by placeholder.
abbrev pub DetailValues : Type 0
DetailValues = List (Text × Text)

put_all : DetailValues → List Detail → DetailValues
put_all values [] = values
put_all values (d ∷ details) = put_all (put d.placeholder d.value values) details

pub detail_values : List Detail → DetailValues
detail_values details = put_all [] details

-- A known placeholder's value; an unknown one stays as written.
shown : DetailValues → Text → Text
shown values placeholder = or_else (get placeholder values) placeholder

-- Text with every known placeholder filled in.
pub restore_details : Text → DetailValues → Text
restore_details text values = replace placeholder_pattern (shown values) 0 text

pub record Segment : Type 0 where
  pub text : Text
  pub is_detail : Bool

-- The text since the last segment, if there is any.
plain : Text → List Segment → List Segment
plain [] segments = segments
plain (c ∷ s) segments = record { text = c ∷ s; is_detail = false } ∷ segments

-- The loop over the matches; `since` is the text from `last` to where the loop stands, and the
-- number counts the characters of the last match that are still to be passed over. A match of an
-- unknown placeholder stays in `since`.
segments_from : DetailValues → Text → Bool → ℕ → Text → List Segment
segments_from values since keep skip [] = plain since []
segments_from values since keep (suc skip) (c ∷ s) =
    segments_from values (if keep then since ++ c ∷ [] else since) keep skip s
segments_from values since keep zero (c ∷ s) = elim (placeholder_pattern (c ∷ s)) [
  | none ↦ segments_from values (since ++ c ∷ []) true 0 s
  | some n ↦ elim (get (take n (c ∷ s)) values) [
    | none ↦ segments_from values (since ++ c ∷ []) true (n - 1) s
    | some value ↦
        plain since
          (record { text = value; is_detail = true } ∷ segments_from values [] false (n - 1) s)
  ]
]

-- The text split so that each restored detail can be marked.
pub detail_segments : Text → DetailValues → List Segment
detail_segments text values = segments_from values [] true 0 text

-- Whether a placeholder stands in the text that the reader cannot see filled in.
pub has_missing_details : Text → DetailValues → Bool
has_missing_details text values =
    any (λ m. not (is_some (get m values))) (match_all placeholder_pattern 0 text)
