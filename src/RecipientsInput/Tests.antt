-- ===== src/RecipientsInput/Tests.antt =====
-- components/RecipientsInput.tsx: two recipients in a box with room for one.
use aimail.Base.{[], ◌∷◌, ◌++◌, codes, filter, All, trim, trim_start, trim_end, ◌≡◌, refl, arith}
use aimail.Recipients.{
  parse_recipients, accept_recipients, fits, is_too_long, scan, scanned, scan_from, scan_char,
  take_char, quoted_after, in_angle_after, is_separator, tidy, room,
}
use aimail.RecipientsInput.{
  Box, entered, blurred, pressed_backspace, changed, add, accepted_by, left_over, refusals_of,
  joined, box_step, run_box, too_many,
}
use aimail.RecipientsInput.Bounds.{IsWithin, run_box-IsWithin}
use aimail.RecipientsInput.Separated.{IsWhole, stays, parse_recipients-joined}
use aimail.RecipientsInput.Kept.{entered-keeps}

abbrev typed : Box
typed = record { recipients = []; other_count = 19; text = codes "a@b.c; d@e.f"; refusals = [] }

one_fits : box_step entered typed ≡ record {
  recipients = codes "a@b.c" ∷ [];
  other_count = 19;
  text = codes "d@e.f";
  refusals = too_many ∷ [];
}
unfolding box_step add accepted_by left_over refusals_of joined accept_recipients room fits
    is_too_long parse_recipients scan scanned scan_from scan_char take_char quoted_after
    in_angle_after is_separator tidy trim trim_start trim_end
one_fits = refl

typed-IsWithin : IsWithin typed
typed-IsWithin = record { few = omega arith; short = tt }

run_box-IsWithin_example :
    IsWithin (run_box (entered ∷ pressed_backspace ∷ changed (codes "x@y.z,") ∷ []) typed)
run_box-IsWithin_example =
    run_box-IsWithin (entered ∷ pressed_backspace ∷ changed (codes "x@y.z,") ∷ []) typed
      typed-IsWithin

quoted-IsWhole : IsWhole (codes "\"Lim, A\" <a@b.c>")
unfolding stays in_angle_after is_separator trim trim_start trim_end
quoted-IsWhole = record { one = refl; trimmed = refl; some_text = refl }

bare-IsWhole : IsWhole (codes "d@e.f")
unfolding stays in_angle_after is_separator trim trim_start trim_end
bare-IsWhole = record { one = refl; trimmed = refl; some_text = refl }

parse_recipients-joined_example :
    parse_recipients (joined (codes "\"Lim, A\" <a@b.c>" ∷ codes "d@e.f" ∷ []))
    ≡ codes "\"Lim, A\" <a@b.c>" ∷ codes "d@e.f" ∷ []
parse_recipients-joined_example =
    parse_recipients-joined (codes "\"Lim, A\" <a@b.c>" ∷ codes "d@e.f" ∷ [])
      (quoted-IsWhole, (bare-IsWhole, tt))

short-IsWhole : IsWhole (codes "a@b.c")
unfolding stays in_angle_after is_separator trim trim_start trim_end
short-IsWhole = record { one = refl; trimmed = refl; some_text = refl }

typed-IsWhole_all : All IsWhole (parse_recipients typed.text)
unfolding parse_recipients scan scanned scan_from scan_char take_char quoted_after in_angle_after
    is_separator tidy trim trim_start trim_end
typed-IsWhole_all = (short-IsWhole, (bare-IsWhole, tt))

entered-keeps_example :
    let a = accept_recipients 19 (parse_recipients typed.text) in
    let after = box_step entered typed in
    (after ≡ box_step blurred typed)
    × (after.recipients ≡ a.accepted)
    × (parse_recipients after.text ≡ a.over_limit ++ a.too_long)
    × (a.accepted ++ a.over_limit ≡ filter fits (parse_recipients typed.text))
    × (a.too_long ≡ filter is_too_long (parse_recipients typed.text))
entered-keeps_example = entered-keeps typed typed-IsWhole_all
