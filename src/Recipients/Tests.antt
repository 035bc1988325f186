-- ===== src/Recipients/Tests.antt =====
-- lib/recipients.ts: recipients that are typed, and twenty-one at once.
use aimail.Base.{List, [], ◌∷◌, Text, codes, ◌≡◌, refl, trim, trim_start, trim_end}
use aimail.Recipients.{
  parse_recipients, scan, scanned, scan_from, scan_char, take_char, quoted_after, in_angle_after,
  is_separator, tidy, split, add_char,
}

-- A comma in a quoted name separates nothing.
quoted_comma :
    parse_recipients (codes "\"Lim, A\" <a@b.c>; d@e.f")
    ≡ codes "\"Lim, A\" <a@b.c>" ∷ codes "d@e.f" ∷ []
unfolding parse_recipients scan scanned scan_from scan_char take_char quoted_after in_angle_after
    is_separator tidy trim trim_start trim_end
quoted_comma = refl

-- With a quote left open each separator counts.
open_quote :
    parse_recipients (codes "\"Lim, A; d@e.f") ≡ codes "\"Lim" ∷ codes "A" ∷ codes "d@e.f" ∷ []
unfolding parse_recipients scan scanned scan_from scan_char take_char quoted_after in_angle_after
    is_separator tidy split add_char trim trim_start trim_end
open_quote = refl

abbrev incoming : List Text
incoming = codes "a@b.c" ∷ codes "d@e.f" ∷ []
