-- ===== src/ComposeList/Order.antt =====
-- lib/composeList.ts: where the row of each id stands once a draft is put in.
use aimail.Base.{
  ℕ, Option, none, some, List, [], ◌∷◌, String, find, ◌===◌, if◌then◌else◌, ◌≡◌, refl, ap, ◌∙◌,
  eq_iff, arith, Bool-cases, inl, inr,
}
use aimail.ComposeDraft.{ComposeDraft}
use aimail.ComposeList.{
  ComposeSummary, ComposeList, summary_of, insert_newest, newest, without, without_draft, sent_time,
  placed, with_draft,
}

-- The row of a draft in a section.
unfoldable pub row_of : String → List ComposeSummary → Option ComposeSummary
row_of id rows = find (λ row. row.id === id) rows

row_of-insert :
    (at : ComposeSummary → ℕ) (id : String) (row : ComposeSummary) (rows : List ComposeSummary)
    → row_of row.id rows ≡ none
    → row_of id (insert_newest at row rows) ≡ (if row.id === id then some row else row_of id rows)
unfolding row_of insert_newest
row_of-insert at id row [] new = refl
row_of-insert at id row (next ∷ rows) new = ground (
  arith,
  eq_iff row.id id,
  eq_iff next.id id,
  eq_iff next.id row.id,
  row_of-insert at id row rows,
)

row_of-without :
    (id j : String) (rows : List ComposeSummary)
    → row_of j (without id rows) ≡ (if id === j then none else row_of j rows)
unfolding row_of without
row_of-without id j [] = ground arith
row_of-without id j (row ∷ rows) =
    ground (arith, eq_iff row.id id, eq_iff row.id j, eq_iff id j, row_of-without id j rows)

-- No two rows of a section have one id.
unfoldable pub NoTwice : List ComposeSummary → Type 0
NoTwice [] = Unit
NoTwice (row ∷ rows) = (row_of row.id rows ≡ none) × NoTwice rows

row_of-newest :
    (at : ComposeSummary → ℕ) (id : String) (rows : List ComposeSummary)
    → NoTwice rows
    → row_of id (newest at rows) ≡ row_of id rows
unfolding row_of newest NoTwice
row_of-newest at id [] once = refl
row_of-newest at id (row ∷ rows) once =
    row_of-insert at id row (newest at rows) (row_of-newest at row.id rows once.1 ∙ once.0)
    ∙ ap (λ o. if row.id === id then some row else o) (row_of-newest at id rows once.1)

NoTwice-without :
    (id : String) (rows : List ComposeSummary) → NoTwice rows → NoTwice (without id rows)
unfolding NoTwice without
NoTwice-without id [] once = tt
NoTwice-without id (row ∷ rows) once = elim (Bool-cases (row.id === id)) [
  | inl e ↦ rw e (NoTwice-without id rows once.1)
  | inr e ↦
      rw e (row_of-without id row.id rows ∙ ground (arith, once.0), NoTwice-without id rows once.1)
]

-- The section that a row was put into.
row_of-placed :
    (at : ComposeSummary → ℕ) (row : ComposeSummary) (rows : List ComposeSummary) (j : String)
    → NoTwice rows
    → row_of j (newest at (row ∷ without row.id rows))
      ≡ (if row.id === j then some row else row_of j rows)
unfolding newest
row_of-placed at row rows j once =
    let rest = NoTwice-without row.id rows once in
    row_of-insert at j row (newest at (without row.id rows)) (
      row_of-newest at row.id (without row.id rows) rest
      ∙ row_of-without row.id row.id rows
      ∙ ground (arith, eq_iff row.id row.id))
    ∙ ap (λ o. if row.id === j then some row else o)
        (row_of-newest at j (without row.id rows) rest ∙ row_of-without row.id j rows)
    ∙ ground arith

-- Which section the row is put into.
placed-row_of :
    (sent_at : Option ℕ) (row : ComposeSummary) (list : ComposeList) (j : String)
    → NoTwice list.drafts
    → NoTwice list.sent
    → (row_of j (placed sent_at row (without_draft list row.id)).drafts ≡ (
        if row.id === j
        then elim sent_at [ none ↦ some row | some at ↦ none ]
        else row_of j list.drafts))
      × (row_of j (placed sent_at row (without_draft list row.id)).sent ≡ (
          if row.id === j
          then elim sent_at [ none ↦ none | some at ↦ some row ]
          else row_of j list.sent))
unfolding placed without_draft
placed-row_of none row list j drafts sent =
    (row_of-placed (λ r. r.updated_at) row list.drafts j drafts, row_of-without row.id j list.sent)
placed-row_of (some at) row list j drafts sent =
    (row_of-without row.id j list.drafts, row_of-placed sent_time row list.sent j sent)

-- The sections of a list that names no draft twice in either: after `withDraft` the draft's row
-- stands in the section of its `sentAt` and in no other, and every other row is where it was.
pub row_of-with_draft :
    (list : ComposeList) (draft : ComposeDraft) (j : String)
    → NoTwice list.drafts
    → NoTwice list.sent
    → (row_of j (with_draft list draft).drafts ≡ (
        if draft.id === j
        then elim draft.sent_at [ none ↦ some (summary_of draft) | some at ↦ none ]
        else row_of j list.drafts))
      × (row_of j (with_draft list draft).sent ≡ (
          if draft.id === j
          then elim draft.sent_at [ none ↦ none | some at ↦ some (summary_of draft) ]
          else row_of j list.sent))
unfolding with_draft summary_of
row_of-with_draft list draft j drafts sent =
    placed-row_of draft.sent_at (summary_of draft) list j drafts sent
