-- ===== src/TodoCache/Tests.antt =====
-- lib/queries/todo.ts: one row, dismissed while its list is being fetched.
use aimail.Base.{
  true, false, some, [], ◌∷◌, ◌+◌, List, ◌≡◌, refl, arith, ◌&&◌, ltb, string_eq, if◌then◌else◌,
}
use aimail.Demo.Todo.{Todo, TodoSection, todo, done_today}
use aimail.Demo.Pages
use aimail.Demo.PageUndo.{after}
use aimail.Demo.PageTests.{question, demo, given, call, found_question}
use aimail.TodoCache.{
  dismiss, remove, CacheEvent, fetch_started, fetched, removed, settled, run_cache, cache_step,
  on_mutate, nothing_cached, without_email, drop_email, without_row, removed_from, handled,
  removed_rows, settle, on_error, on_settled, nth_removal,
}
use aimail.TodoCache.Counts.{IsCounted, rows}
use aimail.TodoCache.Removals.{IsGone, is_done, remove_lem}
use aimail.TodoCache.Away.{run_cache-removes}
use aimail.TodoCache.Served.{without_email-todo}

abbrev no_rows : TodoSection
no_rows = record { emails = []; total = 0 }

-- Three to act on, of which one is shown.
abbrev shown : Todo
shown = record {
  needs_action_list = record { emails = question ∷ []; total = 3 };
  needs_review_list = no_rows;
  unsent_drafts_list = no_rows;
  waiting = [];
  waiting_days = 3;
  count = 3;
  done_today = 1;
}

abbrev left : Todo
left = record shown {
  needs_action_list = record { emails = []; total = 2 };
  count = 2;
  done_today = 2;
}

removed_once : remove (dismiss "m1") shown ≡ left
unfolding remove handled without_email drop_email without_row removed_from
removed_once = refl

shown-IsCounted : IsCounted shown
shown-IsCounted = record {
  shown_action = omega arith;
  shown_review = omega arith;
  shown_drafts = omega arith;
  counted = refl;
}

remove_lem_example :
    IsCounted (remove (dismiss "m1") shown)
    × IsGone (dismiss "m1") (remove (dismiss "m1") shown)
    × ((remove (dismiss "m1") shown).count + rows shown ≡ 3 + rows (remove (dismiss "m1") shown))
    × ((remove (dismiss "m1") shown).done_today ≡ (
        if is_done (dismiss "m1") && ltb (rows (remove (dismiss "m1") shown)) (rows shown)
        then 2
        else 1))
remove_lem_example = remove_lem (dismiss "m1") shown shown-IsCounted

-- The list is fetched, and fetched again as the row goes: that answer is let go.
abbrev before : List CacheEvent
before = fetch_started ∷ fetched shown ∷ fetch_started ∷ []

abbrev during : List CacheEvent
during = fetched shown ∷ settled 0 true ∷ []

shows_left :
    (run_cache during (on_mutate (dismiss "m1") (run_cache before nothing_cached))).cached
    ≡ some left
unfolding run_cache cache_step on_mutate removed_rows settle on_settled nth_removal remove handled
    without_email drop_email without_row removed_from
shows_left = refl

run_cache-removes_example : IsCounted left × IsGone (dismiss "m1") left
run_cache-removes_example =
    run_cache-removes before (dismiss "m1") during left (tt, (shown-IsCounted, (tt, tt)))
      (shown-IsCounted, (tt, tt)) refl shows_left

-- A failure puts the row back.
failure_puts_back :
    (run_cache
      (fetch_started ∷ fetched shown ∷ removed (dismiss "m1") ∷ settled 0 false ∷ [])
      nothing_cached).cached
    ≡ some shown
unfolding run_cache cache_step on_mutate removed_rows settle on_settled on_error nth_removal
failure_puts_back = refl

without_email-todo_example :
    without_email (todo given demo 10) "m1"
    ≡ record (todo given (after given Pages.dismiss call demo) 10) {
      done_today = done_today given demo 10;
    }
without_email-todo_example = without_email-todo given call question demo found_question 10
