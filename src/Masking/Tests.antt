-- ===== src/Masking/Tests.antt =====
-- lib/masking.ts: a text without a placeholder or a marker.
use aimail.Base.{◌≡◌, refl, [], ◌∷◌, ◌++◌, Text, codes}
use aimail.Masking.{match_all, replace, placeholder_pattern, redaction_marker_pattern}

-- A subject and a body, as a send reads them.
abbrev pub plain_text : Text
plain_text = codes "Leave" ++ 10 ∷ codes "Please plan."

pub no_placeholder : match_all placeholder_pattern 0 plain_text ≡ []
unfolding match_all placeholder_pattern
no_placeholder = refl

pub nothing_replaced : (f : Text → Text) → replace placeholder_pattern f 0 plain_text ≡ plain_text
unfolding replace placeholder_pattern
nothing_replaced f = refl

pub no_marker : match_all redaction_marker_pattern 0 plain_text ≡ []
unfolding match_all redaction_marker_pattern
no_marker = refl
