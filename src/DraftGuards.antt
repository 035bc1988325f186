-- ===== src/DraftGuards.antt =====
-- lib/draftGuards.ts: what is still in a draft that should not go out.
pub mod Laws
pub mod Tests
use aimail.Base.{
  ℕ, zero, suc, ◌+◌, Bool, true, false, not, ◌&&◌, ◌||◌, Option, none, some, List, [], ◌∷◌, Text,
  text_eq, length, filter, ltb, leb, ◌==◌, if◌then◌else◌,
}
use aimail.Masking.{
  Pattern, span, match_all, redaction_marker_pattern, placeholder_pattern, is_placeholder,
}

-- `[^[\]\n]`.
is_bracketed_char : ℕ → Bool
is_bracketed_char c = not (c == b'[' || c == b']' || c == 10)

bracketed_tail : Text × Text → Option ℕ
bracketed_tail (run, []) = none
bracketed_tail (run, d ∷ rest) =
    if d == b']' && ltb 0 (length run) && leb (length run) 40 then some (length run + 2) else none

-- `\[[^[\]\n]{1,40}\]`.
pub bracketed : Pattern
bracketed [] = none
bracketed (c ∷ s) = if c == b'[' then bracketed_tail (span is_bracketed_char s) else none

-- `[^{}]`.
pub is_blank_char : ℕ → Bool
is_blank_char c = not (c == b'{' || c == b'}')

blank_tail : Text × Text → Option ℕ
blank_tail (run, []) = none
blank_tail (run, d ∷ []) = none
blank_tail (run, d ∷ e ∷ rest) = if d == b'}' && e == b'}' then some (length run + 4) else none

-- `\{\{[^{}]*\}\}`.
pub template_blank : Pattern
template_blank [] = none
template_blank (c ∷ []) = none
template_blank (c ∷ d ∷ s) =
    if c == b'{' && d == b'{' then blank_tail (span is_blank_char s) else none

-- Markers still in a draft, such as "[Redacted]".
pub find_redaction_markers : Text → List Text
find_redaction_markers draft = match_all redaction_marker_pattern 0 draft

-- `redactionMarkerPattern().test(text)`.
has_marker : Text → Bool
has_marker text = elim (find_redaction_markers text) [ [] ↦ false | _ ∷ _ ↦ true ]

-- Template text that the model left for the reader to fill, such as "[Your Name]".
pub find_template_placeholders : Text → List Text
find_template_placeholders draft =
    filter (λ text. not (is_placeholder text) && not (has_marker text))
      (match_all bracketed 0 draft)

-- A saved template's {{blanks}} still in the draft.
pub find_unfilled_blanks : Text → List Text
find_unfilled_blanks draft = match_all template_blank 0 draft

-- Whether replacing the draft would throw away text that the reader typed.
pub has_unsaved_edits : Option Text → Text → Bool
has_unsaved_edits none server_draft = false
has_unsaved_edits (some typed) server_draft = not (text_eq typed server_draft)
