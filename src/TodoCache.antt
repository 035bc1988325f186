-- ===== src/TodoCache.antt =====
-- lib/queries/todo.ts: the cached To-do, whose rows go at once. The answers of the service are
-- events; what the cache holds and what is to be fetched again is the state. The numbers are natural:
-- a count that the source would take below zero stands at 0, which does not come up while the counts
-- are those of the rows.
use aimail.Base.{
  ℕ, zero, suc, ◌+◌, ◌-◌, Bool, true, false, not, ◌&&◌, Option, none, some, List, [], ◌∷◌, ◌++◌,
  String, ◌===◌, filter, length, ltb, if◌then◌else◌,
}
use aimail.Email.{Email}
use aimail.Demo.Todo.{Todo, TodoSection, WaitingReply}
pub mod Counts
pub mod Removals
pub mod Histories
pub mod Away
pub mod Urgency
pub mod Served
pub mod Tests

-- `drop` in `withoutEmail`.
unfoldable pub without_row : String → List Email → List Email
without_row id emails = filter (λ email. not (email.id === id)) emails

unfoldable pub drop_email : String → TodoSection → TodoSection
drop_email id section = record {
  emails = without_row id section.emails;
  total = section.total - (length section.emails - length (without_row id section.emails));
}

-- By how much a section's total falls.
unfoldable pub removed_from : String → TodoSection → ℕ
removed_from id section = section.total - (drop_email id section).total

unfoldable pub without_email : Todo → String → Todo
without_email todo id = record todo {
  needs_action_list = drop_email id todo.needs_action_list;
  needs_review_list = drop_email id todo.needs_review_list;
  unsent_drafts_list = drop_email id todo.unsent_drafts_list;
  count =
      todo.count
      - (removed_from id todo.needs_action_list
          + removed_from id todo.needs_review_list
          + removed_from id todo.unsent_drafts_list);
}

unfoldable pub without_reply : String → List WaitingReply → List WaitingReply
without_reply id waiting = filter (λ reply. not (reply.id === id)) waiting

unfoldable pub without_waiting : Todo → String → Todo
without_waiting todo id = record todo {
  waiting = without_reply id todo.waiting;
  count = todo.count - (length todo.waiting - length (without_reply id todo.waiting));
}

unfoldable pub handled : Todo → Todo → Todo
handled todo after =
    if ltb after.count todo.count then record after { done_today = todo.done_today + 1 } else after

-- `useDismissEmail`, `useNotWaiting` and `useRemindLater`, each with the id of its row.
pub data Removal : Type 0 where
  dismiss not_waiting remind_later : String → Removal

unfoldable pub remove : Removal → Todo → Todo
remove (dismiss id) todo = handled todo (without_email todo id)
remove (not_waiting id) todo = handled todo (without_waiting todo id)
remove (remind_later id) todo = without_email todo id

-- What is fetched again.
pub data Stale : Type 0 where
  todo_list inbox_list : Stale

-- `[queryKeys.todo, ...alsoChanged]`.
unfoldable pub stale_after : Removal → List Stale
stale_after (remind_later id) = todo_list ∷ inbox_list ∷ []
stale_after _ = todo_list ∷ []

-- The cached answer, the removals under way, each with what was cached before it, whether the list
-- is being fetched, and what was marked to be fetched again.
pub record TodoCache : Type 0 where
  pub cached : Option Todo
  pub under_way : List (Removal × Option Todo)
  pub is_fetching : Bool
  pub marked : List Stale

abbrev pub nothing_cached : TodoCache
nothing_cached = record { cached = none; under_way = []; is_fetching = false; marked = [] }

pub data CacheEvent : Type 0 where
  fetch_started : CacheEvent
  fetched : Todo → CacheEvent
  removed : Removal → CacheEvent
  settled : ℕ → Bool → CacheEvent

unfoldable pub removed_rows : Removal → Option Todo → Option Todo
removed_rows r none = none
removed_rows r (some todo) = some (remove r todo)

-- `onMutate`: the fetch under way is cancelled, and the row goes.
unfoldable pub on_mutate : Removal → TodoCache → TodoCache
on_mutate r c = record c {
  cached = removed_rows r c.cached;
  under_way = c.under_way ++ (r, c.cached) ∷ [];
  is_fetching = false;
}

-- `onError`: what was cached before, where there was something.
unfoldable pub on_error : Option Todo → TodoCache → TodoCache
on_error none c = c
on_error (some before) c = record c { cached = some before }

unfoldable pub on_settled : Removal → TodoCache → TodoCache
on_settled r c = record c { marked = c.marked ++ stale_after r }

unfoldable pub nth_removal : ℕ → List (Removal × Option Todo) → Option (Removal × Option Todo)
nth_removal n [] = none
nth_removal zero (r ∷ rs) = some r
nth_removal (suc n) (r ∷ rs) = nth_removal n rs

unfoldable pub settle : Bool → Option (Removal × Option Todo) → TodoCache → TodoCache
settle is_ok none c = c
settle is_ok (some (r, before)) c = on_settled r (if is_ok then c else on_error before c)

unfoldable pub cache_step : CacheEvent → TodoCache → TodoCache
cache_step fetch_started c = record c { is_fetching = true }
cache_step (fetched todo) c =
    if c.is_fetching then record c { cached = some todo; is_fetching = false } else c
cache_step (removed r) c = on_mutate r c
cache_step (settled n is_ok) c = settle is_ok (nth_removal n c.under_way) c

unfoldable pub run_cache : List CacheEvent → TodoCache → TodoCache
run_cache [] c = c
run_cache (e ∷ events) c = run_cache events (cache_step e c)
