-- ===== src/TodoCache/Counts.antt =====
-- lib/queries/todo.ts: the counts of the cached To-do are those of its rows.
use aimail.Base.{ℕ, ◌+◌, ◌≤◌, List, String, length, length-filter-le, ◌≡◌, arith}
use aimail.Email.{Email}
use aimail.Demo.Todo.{Todo, TodoSection, WaitingReply}
use aimail.TodoCache.{
  without_row, drop_email, removed_from, without_email, without_reply, without_waiting,
}

-- The rows shown are some of those counted, and the count is of all the rows.
pub record IsCounted (todo : Todo) : Type 0 where
  pub shown_action : length todo.needs_action_list.emails ≤ todo.needs_action_list.total
  pub shown_review : length todo.needs_review_list.emails ≤ todo.needs_review_list.total
  pub shown_drafts : length todo.unsent_drafts_list.emails ≤ todo.unsent_drafts_list.total
  pub counted :
      todo.count
      ≡ todo.needs_action_list.total
        + todo.needs_review_list.total
        + todo.unsent_drafts_list.total
        + length todo.waiting

-- The rows that are shown.
unfoldable pub rows : Todo → ℕ
rows todo =
    length todo.needs_action_list.emails
    + length todo.needs_review_list.emails
    + length todo.unsent_drafts_list.emails
    + length todo.waiting

length-without_row :
    (id : String) (emails : List Email) → length (without_row id emails) ≤ length emails
unfolding without_row
length-without_row id emails = length-filter-le _ emails

length-without_reply :
    (id : String) (waiting : List WaitingReply) → length (without_reply id waiting) ≤ length waiting
unfolding without_reply
length-without_reply id waiting = length-filter-le _ waiting

-- What a section loses, of its rows and of its total alike.
module _ (id : String) (section : TodoSection) (shown : length section.emails ≤ section.total) where
  removed_lem :
      (removed_from id section + length (drop_email id section).emails ≡ length section.emails)
      × (removed_from id section + (drop_email id section).total ≡ section.total)
  unfolding drop_email removed_from
  removed_lem = let l = length-without_row id section.emails in (omega arith, omega arith)

  drop-shown : length (drop_email id section).emails ≤ (drop_email id section).total
  drop-shown = omega (arith, removed_lem.0, removed_lem.1)

module _ (todo : Todo) (id : String) (c : IsCounted todo) where
  pub without_email-IsCounted : IsCounted (without_email todo id)
  unfolding without_email
  without_email-IsCounted = record {
    shown_action = drop-shown id todo.needs_action_list c.shown_action;
    shown_review = drop-shown id todo.needs_review_list c.shown_review;
    shown_drafts = drop-shown id todo.unsent_drafts_list c.shown_drafts;
    counted = omega (
      arith,
      c.counted,
      (removed_lem id todo.needs_action_list c.shown_action).1,
      (removed_lem id todo.needs_review_list c.shown_review).1,
      (removed_lem id todo.unsent_drafts_list c.shown_drafts).1,
    );
  }

  pub without_email-rows :
      (without_email todo id).count + rows todo ≡ todo.count + rows (without_email todo id)
  unfolding without_email rows
  without_email-rows = omega (
    arith,
    c.counted,
    removed_lem id todo.needs_action_list c.shown_action,
    removed_lem id todo.needs_review_list c.shown_review,
    removed_lem id todo.unsent_drafts_list c.shown_drafts,
  )

  pub without_waiting-IsCounted : IsCounted (without_waiting todo id)
  unfolding without_waiting
  without_waiting-IsCounted =
      let l = length-without_reply id todo.waiting in
      let w = c.counted in
      record {
        shown_action = c.shown_action;
        shown_review = c.shown_review;
        shown_drafts = c.shown_drafts;
        counted = omega arith;
      }

  pub without_waiting-rows :
      (without_waiting todo id).count + rows todo ≡ todo.count + rows (without_waiting todo id)
  unfolding without_waiting rows
  without_waiting-rows =
      let l = length-without_reply id todo.waiting in let w = c.counted in omega arith
