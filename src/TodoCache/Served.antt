-- ===== src/TodoCache/Served.antt =====
-- lib/queries/todo.ts against demo/pages.ts: what the cache shows at once is what the service answers
-- next.
use aimail.Base.{
  ℕ, ◌+◌, ◌-◌, ◌≤◌, Bool, true, false, not, ◌&&◌, none, some, List, [], ◌∷◌, ◌++◌, String, ◌===◌,
  filter, length, length-filter-le, ◌≡◌, refl, sym, ap, ◌∙◌, arith, Bool-cases, inl, inr,
  if◌then◌else◌, eq_iff, string_eq,
}
use aimail.Base.Maps.{get-put}
use aimail.Email.{Email}
use aimail.Demo.Types.{DemoState, Call}
use aimail.Demo.State.{record_row, email_by_id}
use aimail.Demo.Json.{param}
use aimail.Demo.PageTypes.{PageData}
use aimail.Demo.Pages
use aimail.Demo.Pages.{mark_dismissed, put_or_delete}
use aimail.Demo.PageUndo.{after, dismiss_found, email_by_id-id}
use aimail.Demo.Todo.{
  SectionName, needs_action, needs_review, unsent_drafts, section_of, is_open, same_section,
  in_section, section, by_urgency, Todo, TodoSection, todo, waiting, waiting_rows, waiting_row,
  waiting_since, done_today, is_settled, working_days_since, is_weekend, effective, WaitingReply,
}
use aimail.TodoCache.{without_row, drop_email, removed_from, without_email}
use aimail.TodoCache.Urgency.{filter-by_urgency}

section_closed :
    (t : DemoState) (e : Email) (now : ℕ) → is_open t e now ≡ false → section_of t e now ≡ none
unfolding section_of
section_closed t e now h = rw h refl

section_same :
    (t s : DemoState) (e : Email) (now : ℕ)
    → is_open t e now ≡ is_open s e now
    → section_of t e now ≡ section_of s e now
unfolding section_of
section_same t s e now h = rw h refl

same_section-none : (name : SectionName) → same_section name none ≡ false
unfolding same_section
same_section-none needs_action = refl
same_section-none needs_review = refl
same_section-none unsent_drafts = refl

-- A filter by two tests at once, at one row.
two_filters :
    (p : Email → Bool) (b : Bool) (e : Email) (es : List Email)
    → (if p e && b then e ∷ filter p es else filter p es) ≡ filter p (if b then e ∷ es else es)
two_filters p true e es = elim (Bool-cases (p e)) [ inl h ↦ rw h refl | inr h ↦ rw h refl ]
two_filters p false e es = elim (Bool-cases (p e)) [ inl h ↦ rw h refl | inr h ↦ rw h refl ]

without_row-le : (id : String) (es : List Email) → length (without_row id es) ≤ length es
unfolding without_row
without_row-le id es = length-filter-le _ es

module _ (call : Call) (email : Email) (s : DemoState) where
  dismissed : DemoState
  dismissed = (mark_dismissed call true email s).0

  is_open-dismissed :
      (e : Email) (now : ℕ) → is_open dismissed e now ≡ (not (e.id === email.id) && is_open s e now)
  unfolding dismissed mark_dismissed record_row put_or_delete is_open
  is_open-dismissed e now = ground (
    arith,
    get-put email.id e.id call.now s.dismissed,
    eq_iff e.id email.id,
    eq_iff email.id e.id,
  )

  section_of-dismissed :
      (name : SectionName) (e : Email) (now : ℕ)
      → same_section name (section_of dismissed e now)
        ≡ (not (e.id === email.id) && same_section name (section_of s e now))
  section_of-dismissed name e now = elim (Bool-cases (e.id === email.id)) [
    | inl h ↦
        ap (same_section name) (
          section_closed dismissed e now
            (is_open-dismissed e now ∙ ap (λ b. not b && is_open s e now) h))
        ∙ same_section-none name
        ∙ sym (ap (λ b. not b && same_section name (section_of s e now)) h)
    | inr h ↦
        ap (same_section name) (
          section_same dismissed s e now
            (is_open-dismissed e now ∙ ap (λ b. not b && is_open s e now) h))
        ∙ sym (ap (λ b. not b && same_section name (section_of s e now)) h)
  ]

  rows-dismissed :
      (name : SectionName) (now : ℕ) (emails : List Email)
      → filter (λ e. same_section name (section_of dismissed e now)) emails
        ≡ without_row email.id (filter (λ e. same_section name (section_of s e now)) emails)
  unfolding without_row
  rows-dismissed name now [] = refl
  rows-dismissed name now (e ∷ es) =
      rw (section_of-dismissed name e now, rows-dismissed name now es)
        (two_filters (λ x. not (x.id === email.id)) (same_section name (section_of s e now)) e
          (filter (λ x. same_section name (section_of s x now)) es))

  listed-dismissed :
      (name : SectionName) (now : ℕ)
      → by_urgency (in_section name dismissed now)
        ≡ without_row email.id (by_urgency (in_section name s now))
  unfolding in_section dismissed mark_dismissed record_row without_row
  listed-dismissed name now =
      ap by_urgency (rows-dismissed name now s.emails)
      ∙ sym (filter-by_urgency (λ e. not (e.id === email.id)) (in_section name s now))

  section-dismissed :
      (name : SectionName) (now : ℕ)
      → section name dismissed now ≡ drop_email email.id (section name s now)
  unfolding section drop_email
  section-dismissed name now =
      ap section_of_rows (listed-dismissed name now)
      ∙ ap (λ n. record { emails = without_row email.id shown; total = n }) less
    where
      shown : List Email
      shown = by_urgency (in_section name s now)

      section_of_rows : List Email → TodoSection
      section_of_rows rows = record { emails = rows; total = length rows }

      fewer : length (without_row email.id shown) ≤ length shown
      fewer = without_row-le email.id shown

      less :
          length (without_row email.id shown)
          ≡ length shown - (length shown - length (without_row email.id shown))
      less = omega (arith, fewer)

  module _ (given : PageData) (now : ℕ) where
    waiting-dismissed :
        (emails : List Email)
        → waiting_rows given dismissed now emails ≡ waiting_rows given s now emails
    unfolding waiting_rows waiting_row waiting_since dismissed mark_dismissed record_row is_settled
        working_days_since is_weekend effective
    waiting-dismissed [] = refl
    waiting-dismissed (e ∷ es) = ap (λ l. waiting_row given s now e ++ l) (waiting-dismissed es)

    made : TodoSection → TodoSection → TodoSection → List WaitingReply → ℕ → Todo
    made a b c replies n = record {
      needs_action_list = a;
      needs_review_list = b;
      unsent_drafts_list = c;
      waiting = replies;
      waiting_days = s.waiting_days;
      count = n;
      done_today = done_today given s now;
    }

    total-le :
        (name : SectionName)
        → (drop_email email.id (section name s now)).total ≤ (section name s now).total
    unfolding drop_email section
    total-le name = omega arith

    -- What the totals fall by, taken off the count.
    fallen :
        (a b c x y z w : ℕ)
        → x ≤ a
        → y ≤ b
        → z ≤ c
        → (a + b + c + w) - ((a - x) + (b - y) + (c - z)) ≡ x + y + z + w
    fallen a b c x y z w ha hb hc = omega arith

    waiting-same : waiting given dismissed now ≡ waiting given s now
    unfolding waiting dismissed mark_dismissed record_row
    waiting-same = waiting-dismissed s.emails

    total_of : DemoState → ℕ
    total_of t =
        (section needs_action t now).total
        + (section needs_review t now).total
        + (section unsent_drafts t now).total
        + length (waiting given t now)

    answered :
        record (todo given dismissed now) { done_today = done_today given s now }
        ≡ made
            (section needs_action dismissed now)
            (section needs_review dismissed now)
            (section unsent_drafts dismissed now)
            (waiting given dismissed now)
            (total_of dismissed)
    unfolding todo made total_of dismissed mark_dismissed record_row
    answered = refl

    removed-dismissed :
        without_email (todo given s now) email.id
        ≡ record (todo given dismissed now) { done_today = done_today given s now }
    unfolding without_email todo removed_from made total_of
    removed-dismissed =
        let act = section-dismissed needs_action now in
        let rev = section-dismissed needs_review now in
        let dra = section-dismissed unsent_drafts now in
        ap (made (drop needs_action) (drop needs_review) (drop unsent_drafts) (waiting given s now))
          (fallen (total needs_action) (total needs_review) (total unsent_drafts)
            (drop needs_action).total (drop needs_review).total (drop unsent_drafts).total
            (length (waiting given s now)) (total-le needs_action) (total-le needs_review)
            (total-le unsent_drafts))
        ∙ sym (answered ∙ rw (act, rev, dra, waiting-same) refl)
      where
        drop : SectionName → TodoSection
        drop name = drop_email email.id (section name s now)

        total : SectionName → ℕ
        total name = (section name s now).total

-- The To-do of the demo as the cache shows it at once, when an email of it is dismissed, is the one
-- that the demo answers after the call, but for what was done today: the same lists in the same
-- order, with the same totals, the same replies waited on, and the same count.
pub without_email-todo :
    (given : PageData) (call : Call) (email : Email) (s : DemoState)
    → email_by_id (param call) s.emails ≡ some email
    → (now : ℕ)
    → without_email (todo given s now) (param call)
      ≡ record (todo given (after given Pages.dismiss call s) now) {
        done_today = done_today given s now;
      }
unfolding dismissed
without_email-todo given call email s found now =
    ap (without_email (todo given s now)) (sym (email_by_id-id (param call) email s.emails found))
    ∙ removed-dismissed call email s given now
    ∙ ap (λ (t : DemoState). record (todo given t now) { done_today = done_today given s now })
        (sym (dismiss_found given call s email true found))
