-- ===== src/TodoTabs/Tests.antt =====
-- lib/todoTabs.ts: a To-do with only a draft in it, and an empty one.
use aimail.Base.{none, ◌≡◌, refl}
use aimail.TodoTabs.{TodoTab, Todo, todo_tabs, tab_count, chosen_tab}

abbrev one_draft : Todo
one_draft = record { needs_action = 0; needs_review = 0; unsent_drafts = 1; waiting = 0 }

abbrev clear : Todo
clear = record { needs_action = 0; needs_review = 0; unsent_drafts = 0; waiting = 0 }

drafts_open : chosen_tab one_draft none ≡ TodoTab.drafts
unfolding chosen_tab todo_tabs tab_count
drafts_open = refl

reply_is_empty : tab_count clear (chosen_tab clear none) ≡ 0
unfolding chosen_tab todo_tabs tab_count
reply_is_empty = refl
