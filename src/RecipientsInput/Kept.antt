-- ===== src/RecipientsInput/Kept.antt =====
-- components/RecipientsInput.tsx: what was typed is a chip, or is still in the box.
use aimail.Base.{
  ℕ, zero, suc, ◌+◌, Bool, not, List, [], ◌∷◌, ◌++◌, Text, filter, drop, length, is_empty, All,
  All-append, ◌≡◌, refl, ap, ◌∙◌, Bool-cases, inl, inr,
}
use aimail.Recipients.{parse_recipients, accept_recipients, fits, is_too_long, room}
use aimail.Recipients.Limits.{accept_recipients_lem}
use aimail.RecipientsInput.{Box, entered, blurred, add, accepted_by, left_over, joined, box_step}
use aimail.RecipientsInput.Separated.{IsWhole, parse_recipients-joined}

filter-IsWhole : (p : Text → Bool) (rs : List Text) → All IsWhole rs → All IsWhole (filter p rs)
filter-IsWhole p [] h = tt
filter-IsWhole p (r ∷ rs) h = elim (Bool-cases (p r)) [
  | inl e ↦ rw e (h.0, filter-IsWhole p rs h.1)
  | inr e ↦ rw e (filter-IsWhole p rs h.1)
]

drop-IsWhole : (n : ℕ) (rs : List Text) → All IsWhole rs → All IsWhole (drop n rs)
drop-IsWhole zero rs h = h
drop-IsWhole (suc n) [] h = tt
drop-IsWhole (suc n) (r ∷ rs) h = drop-IsWhole n rs h.1

-- None of them is empty, and nothing follows them.
filter-nonempty :
    (rs : List Text) → All IsWhole rs → filter (λ part. not (is_empty part)) (rs ++ [] ∷ []) ≡ rs
filter-nonempty [] h = refl
filter-nonempty (r ∷ rs) h =
    let e = h.0.some_text in rw e (ap (λ l. r ∷ l) (filter-nonempty rs h.1))

-- Enter and leaving the box lose nothing: when every recipient in the box is whole, the ones that fit
-- become chips behind those that are there, and the text that stays in the box reads back as all the
-- others, in the order of those over the limit and then those that are too long.
pub entered-keeps :
    (b : Box)
    → All IsWhole (parse_recipients b.text)
    → let a = accept_recipients (length b.recipients + b.other_count) (parse_recipients b.text) in
      let after = box_step entered b in
      (after ≡ box_step blurred b)
      × (after.recipients ≡ b.recipients ++ a.accepted)
      × (parse_recipients after.text ≡ a.over_limit ++ a.too_long)
      × (a.accepted ++ a.over_limit ≡ filter fits (parse_recipients b.text))
      × (a.too_long ≡ filter is_too_long (parse_recipients b.text))
unfolding box_step add accepted_by left_over accept_recipients
entered-keeps b h =
    let more = parse_recipients b.text in
    let existing = length b.recipients + b.other_count in
    let left =
      All-append IsWhole (drop (room existing) (filter fits more)) (filter is_too_long more)
        (drop-IsWhole (room existing) (filter fits more) (filter-IsWhole fits more h))
        (filter-IsWhole is_too_long more h) in
    (
      refl,
      refl,
      ap (λ l. parse_recipients (joined l)) (filter-nonempty _ left)
          ∙ parse_recipients-joined
              (drop (room existing) (filter fits more) ++ filter is_too_long more) left,
      (accept_recipients_lem existing more).0,
      refl,
    )
