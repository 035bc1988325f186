-- ===== src/Demo/TodoLaws.antt =====
-- demo/pages.ts: the lists of To-do and their count, and the working days.
use aimail.Base.{
  ℕ, zero, suc, ◌+◌, ◌*◌, ◌≤◌, ◌<◌, ◌/◌, ◌-◌, not, Bool, true, false, Option, none, some, List, [],
  ◌∷◌, length, filter, is_some, leb, if◌then◌else◌, ◌≡◌, refl, ap, ◌∙◌, inl, inr, Bool-cases, arith,
}
use aimail.Email.{Email}
use aimail.Demo.Types.{DemoState}
use aimail.Demo.PageTypes.{PageData}
use aimail.Demo.Todo.{
  SectionName, needs_action, needs_review, unsent_drafts, section_of, same_section, section,
  in_section, is_as_urgent, insert_by_urgency, by_urgency, waiting, todo, working_days_from,
  working_days_since, is_weekend, day_ms,
}

length-insert : (e : Email) (es : List Email) → length (insert_by_urgency e es) ≡ suc (length es)
unfolding insert_by_urgency
length-insert e [] = refl
length-insert e (f ∷ es) = elim (Bool-cases (is_as_urgent e f)) [
  | inl h ↦ rw h refl
  | inr h ↦ rw h (ap suc (length-insert e es))
]

length-by_urgency : (es : List Email) → length (by_urgency es) ≡ length es
unfolding by_urgency
length-by_urgency [] = refl
length-by_urgency (e ∷ es) = length-insert e (by_urgency es) ∙ ap suc (length-by_urgency es)

-- Each email is at least as urgent as the one behind it.
unfoldable pub IsMostUrgentFirst : List Email → Type 0
IsMostUrgentFirst [] = Unit
IsMostUrgentFirst (e ∷ []) = Unit
IsMostUrgentFirst (e ∷ f ∷ es) = (is_as_urgent e f ≡ true) × IsMostUrgentFirst (f ∷ es)

urgent_or_not : (e f : Email) → is_as_urgent e f ≡ false → is_as_urgent f e ≡ true
unfolding is_as_urgent
urgent_or_not e f h = ground arith

-- What is put in front of a list in order is behind nothing less urgent.
insert-IsMostUrgentFirst :
    (e : Email) (es : List Email)
    → IsMostUrgentFirst es
    → IsMostUrgentFirst (insert_by_urgency e es)
unfolding IsMostUrgentFirst insert_by_urgency
insert-IsMostUrgentFirst e [] sorted = tt
insert-IsMostUrgentFirst e (f ∷ []) sorted = elim (Bool-cases (is_as_urgent e f)) [
  | inl h ↦ rw h (h, tt)
  | inr h ↦ rw h (urgent_or_not e f h, tt)
]
insert-IsMostUrgentFirst e (f ∷ g ∷ es) (first, sorted) = elim (Bool-cases (is_as_urgent e f)) [
  | inl h ↦ rw h (h, (first, sorted))
  | inr h ↦
      let later = insert-IsMostUrgentFirst e (g ∷ es) sorted in
      elim (Bool-cases (is_as_urgent e g)) [
        | inl k ↦ rw (h, k) (urgent_or_not e f h, rw k at later)
        | inr k ↦ rw (h, k) (first, rw k at later)
      ]
]

pub by_urgency-IsMostUrgentFirst : (es : List Email) → IsMostUrgentFirst (by_urgency es)
unfolding by_urgency IsMostUrgentFirst
by_urgency-IsMostUrgentFirst [] = tt
by_urgency-IsMostUrgentFirst (e ∷ es) =
    insert-IsMostUrgentFirst e (by_urgency es) (by_urgency-IsMostUrgentFirst es)

module _ (s : DemoState) (now : ℕ) where
  -- Whether an email is in some list.
  abbrev pub is_listed : Email → Bool
  is_listed email = is_some (section_of s email now)

  abbrev in_list : SectionName → List Email → List Email
  in_list name es = filter (λ e. same_section name (section_of s e now)) es

  abbrev counted : SectionName → List Email → ℕ
  counted name es = length (in_list name es)

  one_list :
      (o : Option SectionName) (a b c n : ℕ)
      → a + b + c ≡ n
      → (if same_section needs_action o then suc a else a)
          + (if same_section needs_review o then suc b else b)
          + (if same_section unsent_drafts o then suc c else c)
        ≡ (if is_some o then suc n else n)
  unfolding same_section
  one_list none a b c n h = h
  one_list (some needs_action) a b c n h = omega (arith, h)
  one_list (some needs_review) a b c n h = omega (arith, h)
  one_list (some unsent_drafts) a b c n h = omega (arith, h)

  length-if :
      (b : Bool) (e : Email) (es : List Email)
      → length (if b then e ∷ es else es) ≡ (if b then suc (length es) else length es)
  length-if true e es = refl
  length-if false e es = refl

  counted-lists :
      (es : List Email)
      → counted needs_action es + counted needs_review es + counted unsent_drafts es
        ≡ length (filter is_listed es)
  counted-lists [] = omega arith
  counted-lists (e ∷ es) =
      let o = section_of s e now in
      rw
        (
          length-if (same_section needs_action o) e (in_list needs_action es),
          length-if (same_section needs_review o) e (in_list needs_review es),
          length-if (same_section unsent_drafts o) e (in_list unsent_drafts es),
          length-if (is_some o) e (filter is_listed es),
        )
        (one_list o _ _ _ _ (counted-lists es))

-- The count of To-do is that of the emails that stand in a list, each once, with the replies that are
-- waited on; and in every list the most urgent email comes first, within a priority the oldest.
todo-count :
    (given : PageData) (s : DemoState) (now : ℕ)
    → ((todo given s now).count
        ≡ length (filter (is_listed s now) s.emails) + length (waiting given s now))
      × ((name : SectionName) → IsMostUrgentFirst (section name s now).emails)
unfolding todo section in_section
todo-count given s now = (
  ground (
    arith,
    counted-lists s now s.emails,
    length-by_urgency (in_section needs_action s now),
    length-by_urgency (in_section needs_review s now),
    length-by_urgency (in_section unsent_drafts s now),
  ),
  λ name. by_urgency-IsMostUrgentFirst (in_section name s now),
)

-- The moments one day apart from a first one.
abbrev pub days_from : ℕ → ℕ → List ℕ
days_from zero day = []
days_from (suc n) day = day ∷ days_from n (day + day_ms)

-- With enough rounds, the loop counts the days up to now that are not off.
working_days_from_lem :
    (is_off : ℕ → Bool) (n rounds day now : ℕ)
    → n ≤ rounds
    → day + n * day_ms ≤ now + day_ms
    → now < day + n * day_ms
    → working_days_from is_off rounds day now
      ≡ length (filter (λ d. not (is_off d)) (days_from n day))
unfolding working_days_from
working_days_from_lem is_off zero zero day now enough begun ended = refl
working_days_from_lem is_off zero (suc rounds) day now enough begun ended = ground arith
working_days_from_lem is_off (suc n) zero day now enough begun ended =
    absurd (omega (arith, enough))
working_days_from_lem is_off (suc n) (suc rounds) day now enough begun ended =
    let later =
      working_days_from_lem is_off n rounds (day + day_ms) now (omega (arith, enough))
        (omega (arith, begun)) (omega (arith, ended)) in
    let has_begun : leb day now ≡ true = ground (arith, begun) in
    elim (Bool-cases (is_off day)) [
      | inl e ↦ rw (has_begun, e) later
      | inr e ↦ rw (has_begun, e) (ap suc later)
    ]

-- The working days since a moment that has passed are as many as the moments whole days behind it,
-- up to now, that fall on no weekend day: the loop makes enough rounds.
pub working_days_since_lem :
    (given : PageData) (s : DemoState) (since now : ℕ)
    → since ≤ now
    → working_days_since given s since now
      ≡ length (
          filter
            (λ day. not (is_weekend given s day))
            (days_from ((now - since) / day_ms) (since + day_ms)))
unfolding working_days_since
working_days_since_lem given s since now passed =
    working_days_from_lem (is_weekend given s) ((now - since) / day_ms) (suc (now / day_ms))
      (since + day_ms) now (omega (arith, passed)) (omega (arith, passed)) (omega (arith, passed))
