-- ===== src/Demo/Todo.antt =====
-- demo/pages.ts: the To-do page.
use aimail.Base.{
  ℕ, zero, suc, ◌+◌, ◌/◌, Bool, true, false, not, ◌&&◌, ◌||◌, Option, none, some, List, [], ◌∷◌,
  ◌++◌, map, Text, String, string_eq, nat_eq, length, filter, any, is_some, is_empty, or_else, ltb,
  leb, ◌==◌, includes, if◌then◌else◌,
}
use Prim.Native.String.{◌++◌ as string_append}
use aimail.Base.Maps.{get}
use aimail.Email.{
  Email, Priority, critical, high, medium, low, MaskingStatus, complete, AuthStatus, spoof_detected,
}
use aimail.Demo.Types.{DemoState}
use aimail.Demo.PageTypes.{PageData, QuietHours}

-- `DAY_MS` and `DRAFT_REMINDER_MS`.
abbrev pub day_ms : ℕ
day_ms = 86400000

unfoldable pub priority_rank : Priority → ℕ
priority_rank critical = 0
priority_rank high = 1
priority_rank medium = 2
priority_rank low = 3

unfoldable pub is_snoozed : Option ℕ → ℕ → Bool
is_snoozed none now = false
is_snoozed (some until) now = ltb now until

unfoldable pub is_masked : Option MaskingStatus → Bool
is_masked (some complete) = true
is_masked _ = false

unfoldable pub is_spoof : Option AuthStatus → Bool
is_spoof (some spoof_detected) = true
is_spoof _ = false

unfoldable pub is_open : DemoState → Email → ℕ → Bool
is_open s email now =
    not (is_some email.sent_at)
    && not (is_some (get email.id s.dismissed))
    && is_masked email.masking
    && not (is_spoof email.auth_status)
    && not email.is_automated
    && not (is_snoozed email.snoozed_until now)

pub data SectionName : Type 0 where
  needs_action needs_review unsent_drafts : SectionName

unfoldable pub has_any {ℓ} : {A : Type ℓ} → List A → Bool
has_any [] = false
has_any (x ∷ xs) = true

unfoldable pub is_stale : Email → ℕ → Bool
is_stale email now = ltb (email.timestamp + day_ms) now

-- Each email in one list only, the most urgent.
unfoldable pub section_of : DemoState → Email → ℕ → Option SectionName
section_of s email now =
    if not (is_open s email now)
    then none
    else if not (is_empty email.draft_reply) && has_any email.review_reasons
    then some needs_review
    else if has_any email.action_items
    then some needs_action
    else if not (is_empty email.draft_reply) && is_stale email now
    then some unsent_drafts
    else none

unfoldable pub same_section : SectionName → Option SectionName → Bool
same_section needs_action (some needs_action) = true
same_section needs_review (some needs_review) = true
same_section unsent_drafts (some unsent_drafts) = true
same_section _ _ = false

-- `byUrgency(a, b) <= 0`.
unfoldable pub is_as_urgent : Email → Email → Bool
is_as_urgent a b =
    ltb (priority_rank a.priority) (priority_rank b.priority)
    || priority_rank a.priority == priority_rank b.priority && leb a.timestamp b.timestamp

-- `sort(byUrgency)`, which keeps the order of equals.
unfoldable pub insert_by_urgency : Email → List Email → List Email
insert_by_urgency e [] = e ∷ []
insert_by_urgency e (f ∷ es) = if is_as_urgent e f then e ∷ f ∷ es else f ∷ insert_by_urgency e es

unfoldable pub by_urgency : List Email → List Email
by_urgency [] = []
by_urgency (e ∷ es) = insert_by_urgency e (by_urgency es)

pub record TodoSection : Type 0 where
  pub emails : List Email
  pub total : ℕ

unfoldable pub in_section : SectionName → DemoState → ℕ → List Email
in_section name s now = filter (λ email. same_section name (section_of s email now)) s.emails

unfoldable pub section : SectionName → DemoState → ℕ → TodoSection
section name s now = record {
  emails = by_urgency (in_section name s now);
  total = length (by_urgency (in_section name s now));
}

unfoldable pub sent_id_of : Email → String
sent_id_of email = string_append "sent-" email.id

pub record WaitingReply : Type 0 where
  pub id : String
  pub subject : Text
  pub sent_at : ℕ
  pub thread_id : String
  pub working_days : ℕ
  pub email : Email

-- `/[?？]/.test(text)`.
unfoldable pub asks : Text → Bool
asks text = any (λ c. c == 0x3f || c == 0xff1f) text

-- `day.getDay() || 7`.
unfoldable pub iso_weekday : ℕ → ℕ
iso_weekday zero = 7
iso_weekday (suc n) = suc n

-- The loop of `workingDaysSince`, one round per day.
unfoldable pub working_days_from : (ℕ → Bool) → ℕ → ℕ → ℕ → ℕ
working_days_from is_weekend zero day now = 0
working_days_from is_weekend (suc rounds) day now =
    let rest = working_days_from is_weekend rounds (day + day_ms) now in
    if leb day now then (if is_weekend day then rest else suc rest) else 0

-- Emails and replies dealt with since midnight.
unfoldable pub is_today : ℕ → Option ℕ → Bool
is_today since none = false
is_today since (some at) = leb since at

unfoldable pub distinct : List String → List String
distinct [] = []
distinct (id ∷ ids) = if includes ids id then distinct ids else id ∷ distinct ids

unfoldable pub ids_since : ℕ → List (String × ℕ) → List String
ids_since since entries = map (λ e. e.0) (filter (λ e. leb since e.1) entries)

pub record Todo : Type 0 where
  pub needs_action_list : TodoSection
  pub needs_review_list : TodoSection
  pub unsent_drafts_list : TodoSection
  pub waiting : List WaitingReply
  pub waiting_days : ℕ
  pub count : ℕ
  pub done_today : ℕ

module _ (given : PageData) where
  -- `quietHours().effective`.
  unfoldable pub effective : DemoState → QuietHours
  effective s = or_else s.personal_quiet_hours given.company

  unfoldable pub is_weekend : DemoState → ℕ → Bool
  is_weekend s day = includes (effective s).weekend_days (iso_weekday (given.weekday day))

  unfoldable pub working_days_since : DemoState → ℕ → ℕ → ℕ
  working_days_since s since now =
      working_days_from (is_weekend s) (suc (now / day_ms)) (since + day_ms) now

  unfoldable pub is_settled : DemoState → Email → Bool
  is_settled s email =
      is_some (get (sent_id_of email) s.not_waiting)
      || is_some (get (sent_id_of email) s.followed_up)

  -- The row of a reply that was sent then.
  unfoldable pub waiting_since : DemoState → ℕ → Email → ℕ → List WaitingReply
  waiting_since s now email sent_at =
      if is_settled s email || not (asks email.draft_reply)
      then []
      else if ltb (working_days_since s sent_at now) s.waiting_days
      then []
      else record {
        id = sent_id_of email;
        subject = email.subject;
        sent_at = sent_at;
        thread_id = or_else email.thread_id email.id;
        working_days = working_days_since s sent_at now;
        email = email;
      }
        ∷ []

  unfoldable pub waiting_row : DemoState → ℕ → Email → List WaitingReply
  waiting_row s now email = elim email.sent_at [
    | none ↦ []
    | some sent_at ↦ waiting_since s now email sent_at
  ]

  unfoldable pub waiting_rows : DemoState → ℕ → List Email → List WaitingReply
  waiting_rows s now [] = []
  waiting_rows s now (email ∷ emails) = waiting_row s now email ++ waiting_rows s now emails

  unfoldable pub waiting : DemoState → ℕ → List WaitingReply
  waiting s now = waiting_rows s now s.emails

  unfoldable pub done_today : DemoState → ℕ → ℕ
  done_today s now =
      let since = given.start_of_day now in
      length (
        filter (λ email. is_today since email.sent_at || is_today since (get email.id s.dismissed))
          s.emails)
      + length (distinct (ids_since since s.not_waiting ++ ids_since since s.followed_up))

  unfoldable pub todo : DemoState → ℕ → Todo
  todo s now = record {
    needs_action_list = section needs_action s now;
    needs_review_list = section needs_review s now;
    unsent_drafts_list = section unsent_drafts s now;
    waiting = waiting s now;
    waiting_days = s.waiting_days;
    count =
        (section needs_action s now).total
        + (section needs_review s now).total
        + (section unsent_drafts s now).total
        + length (waiting s now);
    done_today = done_today s now;
  }
