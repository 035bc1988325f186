-- ===== src/DraftGuards/Tests.antt =====
-- lib/draftGuards.ts: the searches at concrete drafts.
use aimail.Masking.Tests.{plain_text, no_marker}
use aimail.Base.{◌≡◌, refl, [], ◌∷◌, codes}
use aimail.Masking.{match_all, span}
use aimail.DraftGuards.{
  is_blank_char, blank_tail, template_blank, find_redaction_markers, find_unfilled_blanks,
  find_template_placeholders, bracketed, bracketed_tail, is_bracketed_char,
}

blanks_are_found :
    find_unfilled_blanks (codes "Hi {{name}}, {x} {{ }}") ≡ codes "{{name}}" ∷ codes "{{ }}" ∷ []
unfolding find_unfilled_blanks match_all template_blank blank_tail span is_blank_char
blanks_are_found = refl

bracketed_are_found :
    match_all bracketed 0 (codes "[Your Name] [] [a[b]") ≡ codes "[Your Name]" ∷ codes "[b]" ∷ []
unfolding match_all bracketed bracketed_tail span is_bracketed_char
bracketed_are_found = refl

pub no_markers : find_redaction_markers plain_text ≡ []
unfolding find_redaction_markers
no_markers = no_marker

pub no_blanks : find_unfilled_blanks (codes "Please plan.") ≡ []
unfolding find_unfilled_blanks match_all template_blank blank_tail span is_blank_char
no_blanks = refl

pub no_templates : find_template_placeholders plain_text ≡ []
unfolding find_template_placeholders match_all bracketed bracketed_tail span is_bracketed_char
no_templates = refl
