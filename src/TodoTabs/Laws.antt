-- ===== src/TodoTabs/Laws.antt =====
-- lib/todoTabs.ts: no empty tab opens while another has something in it.
use aimail.Base.{none, ◌≡◌, arith}
use aimail.TodoTabs.{TodoTab, Todo, todo_tabs, tab_count, chosen_tab}

-- If the tab that opens unasked is empty, every tab is.
chosen_tab-empty :
    (todo : Todo) (tab : TodoTab)
    → tab_count todo (chosen_tab todo none) ≡ 0
    → tab_count todo tab ≡ 0
unfolding chosen_tab todo_tabs tab_count
chosen_tab-empty todo TodoTab.reply h = ground arith
chosen_tab-empty todo TodoTab.review h = ground arith
chosen_tab-empty todo TodoTab.drafts h = ground arith
chosen_tab-empty todo TodoTab.waiting h = ground arith
