-- ===== src/Details/Tests.antt =====
-- lib/details.ts: a restored text.
use aimail.Masking.Tests.{plain_text, no_placeholder, nothing_replaced}
use aimail.Base.{◌≡◌, refl, false, [], ◌∷◌, codes}
use aimail.Details.{
  DetailValues, has_missing_details, detail_values, detail_segments, restore_details,
}
use aimail.Details.Segments.{joined, joined-detail_segments}

abbrev values : DetailValues
values = (codes "[PERSON_1]", codes "Aisyah") ∷ []

joined-detail_segments_example :
    joined (detail_segments (codes "Hi [PERSON_1], not [PERSON_2]") values)
    ≡ restore_details (codes "Hi [PERSON_1], not [PERSON_2]") values
joined-detail_segments_example =
    joined-detail_segments (codes "Hi [PERSON_1], not [PERSON_2]") values

pub nothing_missing : has_missing_details plain_text (detail_values []) ≡ false
unfolding has_missing_details
nothing_missing = rw no_placeholder refl

pub restored_plain : restore_details plain_text (detail_values []) ≡ plain_text
unfolding restore_details
restored_plain = nothing_replaced _

pub complete_plain : (known : DetailValues) → has_missing_details plain_text known ≡ false
unfolding has_missing_details
complete_plain known = rw no_placeholder refl

pub plain_restored : (known : DetailValues) → restore_details plain_text known ≡ plain_text
unfolding restore_details
plain_restored known = nothing_replaced _
