-- ===== src/TodoTabs.antt =====
-- lib/todoTabs.ts: the four lists of To-do, and which of them is open. Of the service's answer only
-- the counts are kept.
use aimail.Base.{
  ℕ, Bool, Option, none, some, List, [], ◌∷◌, Text, codes, text_eq_instance, or_else, find, ltb,
}
use aimail.Base.Maps.{get}
pub mod Laws
pub mod Tests

pub data TodoTab : Type 0 where
  reply review drafts waiting : TodoTab

pub record Todo : Type 0 where
  pub needs_action : ℕ
  pub needs_review : ℕ
  pub unsent_drafts : ℕ
  pub waiting : ℕ

pub todo_tabs : List TodoTab
todo_tabs = TodoTab.reply ∷ TodoTab.review ∷ TodoTab.drafts ∷ TodoTab.waiting ∷ []

-- `parseTab`; a value that is no text is `none`.
pub parse_tab : Option Text → Option TodoTab
parse_tab none = none
parse_tab (some value) = get value (
    (codes "reply", TodoTab.reply)
    ∷ (codes "review", TodoTab.review)
    ∷ (codes "drafts", TodoTab.drafts)
    ∷ (codes "waiting", TodoTab.waiting)
    ∷ [])

pub tab_count : Todo → TodoTab → ℕ
tab_count todo TodoTab.reply = todo.needs_action
tab_count todo TodoTab.review = todo.needs_review
tab_count todo TodoTab.drafts = todo.unsent_drafts
tab_count todo TodoTab.waiting = todo.waiting

-- The tab asked for, else the first with anything in it.
pub chosen_tab : Todo → Option TodoTab → TodoTab
chosen_tab todo (some requested) = requested
chosen_tab todo none = or_else (find (λ tab. ltb 0 (tab_count todo tab)) todo_tabs) TodoTab.reply
