-- ===== src/Recipients/Limits.antt =====
-- lib/recipients.ts: every recipient is accounted for, and the limits are kept.
use aimail.Base.{
  zero, suc, ℕ, ◌+◌, ◌-◌, ◌≤◌, List, [], ◌∷◌, ◌++◌, Text, filter, length, take, drop, leb, All, suc,
  take-append-drop, length-take, length-append, ◌≡◌, refl, ap, arith, Bool-cases, inl, inr,
}
use aimail.Recipients.{accept_recipients, room, fits, is_too_long}

filter-fits : (rs : List Text) → All (λ r. length r ≤ 320) (filter fits rs)
unfolding fits
filter-fits [] = tt
filter-fits (r ∷ rs) = elim (Bool-cases (leb (length r) 320)) [
  | inl e ↦ rw e (ground (arith, e), filter-fits rs)
  | inr e ↦ rw e (filter-fits rs)
]

All-take :
    (n : ℕ) (rs : List Text) → All (λ r. length r ≤ 320) rs → All (λ r. length r ≤ 320) (take n rs)
All-take zero rs h = tt
All-take (suc n) [] h = tt
All-take (suc n) (r ∷ rs) h = (h.0, All-take n rs h.1)

counted : (rs : List Text) → length (filter fits rs) + length (filter is_too_long rs) ≡ length rs
unfolding fits is_too_long
counted [] = refl
counted (r ∷ rs) = ground (arith, counted rs)

-- The recipients that are accepted and those over the limit are, in order, those that are not too
-- long, and with the too long ones there are as many as came in; the accepted ones are 320
-- characters long at most, and no more of them than the twenty less those there already.
pub accept_recipients_lem :
    (existing : ℕ) (incoming : List Text)
    → let a = accept_recipients existing incoming in
      (a.accepted ++ a.over_limit ≡ filter fits incoming)
      × (length a.accepted + length a.over_limit + length a.too_long ≡ length incoming)
      × All (λ r. length r ≤ 320) a.accepted
      × (length a.accepted ≤ 20 - existing)
unfolding accept_recipients room
accept_recipients_lem existing incoming =
    let whole = take-append-drop (20 - existing) (filter fits incoming) in
    (
      whole,
      omega (
        arith,
        counted incoming,
        ap length whole,
        length-append (take (20 - existing) (filter fits incoming))
            (drop (20 - existing) (filter fits incoming)),
      ),
      All-take (20 - existing) (filter fits incoming) (filter-fits incoming),
      omega (arith, length-take (20 - existing) (filter fits incoming)),
    )
