-- ===== src/TodoCache/Urgency.antt =====
-- demo/pages.ts: a row taken out of a list in order.
use aimail.Base.{
  Bool, true, List, [], ◌∷◌, filter, All, ◌≡◌, refl, sym, ap, ◌∙◌, arith, Bool-cases, inl, inr,
  if◌then◌else◌, string_eq,
}
use aimail.Email.{Email}
use aimail.Demo.Todo.{insert_by_urgency, by_urgency, is_as_urgent}
use aimail.Demo.TodoLaws.{IsMostUrgentFirst, by_urgency-IsMostUrgentFirst}

is_as_urgent_trans :
    (a b c : Email) → is_as_urgent a b ≡ true → is_as_urgent b c ≡ true → is_as_urgent a c ≡ true
unfolding is_as_urgent
is_as_urgent_trans a b c h k = ground arith

-- The first of a list in order is as urgent as every other.
head-urgent :
    (e f : Email) (es : List Email)
    → is_as_urgent e f ≡ true
    → IsMostUrgentFirst (f ∷ es)
    → All (λ g. is_as_urgent e g ≡ true) (f ∷ es)
unfolding IsMostUrgentFirst
head-urgent e f [] h s = (h, tt)
head-urgent e f (g ∷ es) h s = (h, head-urgent e g es (is_as_urgent_trans e f g h s.0) s.1)

tail-IsMostUrgentFirst :
    (f : Email) (es : List Email) → IsMostUrgentFirst (f ∷ es) → IsMostUrgentFirst es
unfolding IsMostUrgentFirst
tail-IsMostUrgentFirst f [] s = tt
tail-IsMostUrgentFirst f (g ∷ es) s = s.1

insert_front :
    (e : Email) (es : List Email)
    → All (λ g. is_as_urgent e g ≡ true) es
    → insert_by_urgency e es ≡ e ∷ es
unfolding insert_by_urgency
insert_front e [] h = refl
insert_front e (f ∷ es) h = rw h.0 refl

module _ (p : Email → Bool) where
  All-kept :
      (e : Email) (es : List Email)
      → All (λ g. is_as_urgent e g ≡ true) es
      → All (λ g. is_as_urgent e g ≡ true) (filter p es)
  All-kept e [] h = tt
  All-kept e (f ∷ es) h = elim (Bool-cases (p f)) [
    | inl k ↦ rw k (h.0, All-kept e es h.1)
    | inr k ↦ rw k (All-kept e es h.1)
  ]

  filter-insert :
      (e : Email) (es : List Email)
      → IsMostUrgentFirst es
      → filter p (insert_by_urgency e es)
        ≡ (if p e then insert_by_urgency e (filter p es) else filter p es)
  unfolding insert_by_urgency
  filter-insert e [] s = refl
  filter-insert e (f ∷ es) s = elim (Bool-cases (is_as_urgent e f)) [
    | inl h ↦
        let front =
          insert_front e (filter p (f ∷ es)) (All-kept e (f ∷ es) (head-urgent e f es h s)) in
        rw h (ap (λ l. if p e then l else filter p (f ∷ es)) (sym front))
    | inr h ↦
        let later = filter-insert e es (tail-IsMostUrgentFirst f es s) in
        rw h (elim (Bool-cases (p f)) [
          | inl k ↦
              rw (k, later) (elim (Bool-cases (p e)) [ inl j ↦ rw (j, h) refl | inr j ↦ rw j refl ])
          | inr k ↦ rw (k, later) refl
        ])
  ]

  pub filter-by_urgency : (es : List Email) → filter p (by_urgency es) ≡ by_urgency (filter p es)
  unfolding by_urgency
  filter-by_urgency [] = refl
  filter-by_urgency (e ∷ es) =
      filter-insert e (by_urgency es) (by_urgency-IsMostUrgentFirst es) ∙ elim (Bool-cases (p e)) [
        | inl h ↦ rw h (ap (insert_by_urgency e) (filter-by_urgency es))
        | inr h ↦ rw h (filter-by_urgency es)
      ]
