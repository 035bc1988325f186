-- ===== src/Inbox.antt =====
-- lib/conversations.ts, lib/inboxFilter.ts, lib/draftAvailability.ts, lib/drafts.ts: the rows of the
-- inbox, how they are filtered and sorted, and which drafts wait for the reader.
use aimail.Base.{
  ℕ, ◌+◌, Bool, true, false, not, ◌&&◌, Option, none, some, List, [], ◌∷◌, ◌++◌, String, string_eq,
  or_else, is_some, is_empty, trim, filter, find, length, leb, ltb, includes, if◌then◌else◌,
}
use aimail.Base.Maps.{get, put}
use aimail.Email.{
  Email, Priority, critical, high, medium, low, EmailCategory, client, vendor, internal, security,
  admin, personal, AuthStatus, pass, spoof_detected, unverified, sender_confirmed, MaskingStatus,
  complete, pending, abandoned,
}
pub mod Threads
pub mod Sorting
pub mod Drafts
pub mod Tests

pub record Conversation : Type 0 where
  pub email : Email
  pub count : ℕ
  pub is_read : Bool
  pub message_ids : List String

-- `email.threadId ?? email.id`.
pub thread_key : Email → String
thread_key email = or_else email.thread_id email.id

pub new_conversation : Email → Conversation
new_conversation email = record {
  email = email;
  count = 1;
  is_read = email.is_read;
  message_ids = email.id ∷ [];
}

pub extended : Conversation → Email → Conversation
extended known email = record known {
  count = known.count + 1;
  is_read = known.is_read && email.is_read;
  message_ids = known.message_ids ++ email.id ∷ [];
}

-- The conversation of an email, given what is known of its thread.
pub conversation_with : Option Conversation → Email → Conversation
conversation_with none email = new_conversation email
conversation_with (some known) email = extended known email

-- The loop over the emails; a known conversation keeps its place in the map.
pub grouped : List (String × Conversation) → List Email → List (String × Conversation)
grouped by_thread [] = by_thread
grouped by_thread (email ∷ emails) =
    grouped
      (put (thread_key email) (conversation_with (get (thread_key email) by_thread) email)
        by_thread)
      emails

pub values : List (String × Conversation) → List Conversation
values [] = []
values ((key, conversation) ∷ entries) = conversation ∷ values entries

pub group_by_thread : List Email → List Conversation
group_by_thread emails = values (grouped [] emails)

-- `RANK`.
pub rank : Priority → ℕ
rank critical = 0
rank high = 1
rank medium = 2
rank low = 3

pub same_priority : Priority → Priority → Bool
same_priority critical critical = true
same_priority high high = true
same_priority medium medium = true
same_priority low low = true
same_priority _ _ = false

-- A filter of `none` is "all".
pub filter_by_priority : List Conversation → Option Priority → List Conversation
filter_by_priority conversations none = conversations
filter_by_priority conversations (some priority) =
    filter (λ c. same_priority c.email.priority priority) conversations

pub data InboxView : Type 0 where
  primary updates : InboxView

pub view_of : Email → InboxView
view_of email = if email.is_automated then updates else primary

pub same_view : InboxView → InboxView → Bool
same_view primary primary = true
same_view updates updates = true
same_view _ _ = false

pub filter_by_view : List Conversation → InboxView → List Conversation
filter_by_view conversations view = filter (λ c. same_view (view_of c.email) view) conversations

pub unread_count : List Conversation → ℕ
unread_count conversations = length (filter (λ c. not c.is_read) conversations)

pub tab_of : List Email → Email → InboxView
tab_of emails email =
    view_of
      (elim (find (λ (c : Conversation). includes c.message_ids email.id)
        (group_by_thread emails)) [ none ↦ email | some conversation ↦ conversation.email ])

pub first_id : List Conversation → Option String
first_id [] = none
first_id (c ∷ conversations) = some c.email.id

pub first_email_in : List Email → InboxView → Option String
first_email_in emails view = first_id (filter_by_view (group_by_thread emails) view)

pub data InboxSort : Type 0 where
  urgent newest : InboxSort

-- The stable sort by rank.
pub insert_by_rank : Conversation → List Conversation → List Conversation
insert_by_rank c [] = c ∷ []
insert_by_rank c (d ∷ rest) =
    if leb (rank c.email.priority) (rank d.email.priority)
    then c ∷ d ∷ rest
    else d ∷ insert_by_rank c rest

pub by_rank : List Conversation → List Conversation
by_rank [] = []
by_rank (c ∷ rest) = insert_by_rank c (by_rank rest)

pub sort_conversations : List Conversation → InboxSort → List Conversation
sort_conversations conversations newest = conversations
sort_conversations conversations urgent = by_rank conversations

-- `CATEGORY_MIN_CONFIDENCE`, in thousandths.
abbrev pub category_min_confidence : ℕ
category_min_confidence = 500

pub category_at : EmailCategory → Option ℕ → Option EmailCategory
category_at category none = none
category_at category (some confidence) =
    if leb category_min_confidence confidence then some category else none

pub shown_category : Email → Option EmailCategory
shown_category email = category_at email.category email.category_confidence

pub same_category : EmailCategory → EmailCategory → Bool
same_category client client = true
same_category vendor vendor = true
same_category internal internal = true
same_category security security = true
same_category admin admin = true
same_category personal personal = true
same_category _ _ = false

pub shows : EmailCategory → Option EmailCategory → Bool
shows category none = false
shows category (some shown) = same_category shown category

pub filter_by_category : List Conversation → Option EmailCategory → List Conversation
filter_by_category conversations none = conversations
filter_by_category conversations (some category) =
    filter (λ c. shows category (shown_category c.email)) conversations

pub data DraftAvailability : Type 0 where
  quarantined needs_sender_check ready ready_unverified : DraftAvailability

pub withheld : Option MaskingStatus → Bool
withheld (some pending) = true
withheld (some abandoned) = true
withheld _ = false

pub is_quarantined : Email → Bool
is_quarantined email = withheld email.masking

pub availability : Bool → Option AuthStatus → DraftAvailability
availability true status = quarantined
availability false (some spoof_detected) = needs_sender_check
availability false (some pass) = ready
availability false (some sender_confirmed) = ready
availability false _ = ready_unverified

pub draft_availability : Email → DraftAvailability
draft_availability email = availability (is_quarantined email) email.auth_status

pub is_spoofed : Option AuthStatus → Bool
is_spoofed (some spoof_detected) = true
is_spoofed _ = false

pub is_pending_draft : Email → Bool
is_pending_draft email =
    not (is_empty (trim email.draft_reply))
    && not (is_some email.sent_at)
    && not email.is_answered
    && not (is_some email.scheduled_for)
    && not email.is_drafting
    && not (is_spoofed email.auth_status)
    && not (is_quarantined email)
