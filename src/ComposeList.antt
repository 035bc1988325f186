-- ===== src/ComposeList.antt =====
-- lib/composeList.ts: the dashboard's own copy of the list of new emails.
use aimail.Base.{
  ℕ, Bool, not, Option, none, some, List, [], ◌∷◌, ◌++◌, Text, String, or_else, filter, take, leb,
  is_space, is_empty, ◌===◌, if◌then◌else◌,
}
use aimail.Details.{Detail}
use aimail.ComposeDraft.{ComposeDraft, ComposeState}
pub mod Order

pub record ComposeSummary : Type 0 where
  pub id : String
  pub to : List Text
  pub subject : Text
  pub preview : Text
  pub state : ComposeState
  pub updated_at : ℕ
  pub sent_at : Option ℕ
  pub details : List Detail

pub record ComposeList : Type 0 where
  pub drafts : List ComposeSummary
  pub sent : List ComposeSummary

unfoldable pub empty_compose_list : ComposeList
empty_compose_list = record { drafts = []; sent = [] }

abbrev pub preview_chars : ℕ
preview_chars = 140

-- `split(/\s+/)`, the first word being the one under way.
pub add_char : ℕ → List Text → List Text
add_char c [] = (c ∷ []) ∷ []
add_char c (word ∷ words) = (c ∷ word) ∷ words

-- `split(/\s+/).filter(Boolean)`; a blank ends a word.
pub words_of : Text → List Text
words_of text = filter (λ word. not (is_empty word)) (split text)
  where
    split : Text → List Text
    split [] = [] ∷ []
    split (c ∷ s) = let rest = split s in if is_space c then [] ∷ rest else add_char c rest

-- `join(" ")`.
pub join_words : List Text → Text
join_words [] = []
join_words (word ∷ []) = word
join_words (word ∷ next ∷ words) = word ++ 32 ∷ join_words (next ∷ words)

-- `draft.body || draft.brief`.
pub body_or_brief : ComposeDraft → Text
body_or_brief draft = if is_empty draft.body then draft.brief else draft.body

unfoldable pub summary_of : ComposeDraft → ComposeSummary
summary_of draft = record {
  id = draft.id;
  to = draft.to;
  subject = draft.subject;
  preview = take preview_chars (join_words (words_of (body_or_brief draft)));
  state = draft.state;
  updated_at = draft.updated_at;
  sent_at = draft.sent_at;
  details = draft.details;
}

-- `sort(newest(at))`, which keeps the order of equal times.
unfoldable pub insert_newest :
    (ComposeSummary → ℕ) → ComposeSummary → List ComposeSummary → List ComposeSummary
insert_newest at row [] = row ∷ []
insert_newest at row (next ∷ rows) =
    if leb (at next) (at row) then row ∷ next ∷ rows else next ∷ insert_newest at row rows

unfoldable pub newest : (ComposeSummary → ℕ) → List ComposeSummary → List ComposeSummary
newest at [] = []
newest at (row ∷ rows) = insert_newest at row (newest at rows)

unfoldable pub without : String → List ComposeSummary → List ComposeSummary
without id rows = filter (λ row. not (row.id === id)) rows

unfoldable pub without_draft : ComposeList → String → ComposeList
without_draft list id = record { drafts = without id list.drafts; sent = without id list.sent }

unfoldable pub sent_time : ComposeSummary → ℕ
sent_time row = or_else row.sent_at row.updated_at

-- The section is that of `sentAt`.
unfoldable pub placed : Option ℕ → ComposeSummary → ComposeList → ComposeList
placed none row rest = record rest { drafts = newest (λ r. r.updated_at) (row ∷ rest.drafts) }
placed (some at) row rest = record rest { sent = newest sent_time (row ∷ rest.sent) }

unfoldable pub with_draft : ComposeList → ComposeDraft → ComposeList
with_draft list draft = placed draft.sent_at (summary_of draft) (without_draft list draft.id)
