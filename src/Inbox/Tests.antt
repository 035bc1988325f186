-- ===== src/Inbox/Tests.antt =====
-- lib/inboxFilter.ts, lib/conversations.ts, lib/drafts.ts: the theorems at two emails.
use aimail.Base.{
  string_eq, true, false, none, some, List, [], ◌∷◌, codes, trim, trim_start, trim_end, filter, ◌≡◌,
  refl, ◌===◌,
}
use aimail.Base.Maps.{get}
use aimail.Email.{Email, low, high, client, professional}
use aimail.Inbox.{
  Conversation, new_conversation, thread_key, grouped, is_pending_draft, is_quarantined, withheld,
  is_spoofed,
}
use aimail.Inbox.Threads.{row_of_thread, get-grouped_lem}

abbrev newsletter : Email
newsletter = record {
  id = "m1";
  thread_id = some "t1";
  sender = codes "a@b.c";
  subject = codes "News";
  timestamp = 7;
  is_read = false;
  is_automated = true;
  is_answered = false;
  is_drafting = false;
  priority = low;
  category = client;
  category_confidence = none;
  tone = professional;
  draft_reply = codes "Thanks";
  critic_confidence = none;
  review_reasons = [];
  action_items = [];
  ai_summary = [];
  details = [];
  egress = [];
  auth_status = none;
  masking = none;
  sent_at = none;
  scheduled_for = none;
  snoozed_until = none;
  sender_utc_offset_minutes = none;
}

abbrev reply : Email
reply = record newsletter { id = "m2"; priority = high }

get-grouped_lem_example :
    get "t1" (grouped [] (reply ∷ newsletter ∷ []))
    ≡ row_of_thread (filter (λ email. thread_key email === "t1") (reply ∷ newsletter ∷ []))
get-grouped_lem_example = get-grouped_lem "t1" (reply ∷ newsletter ∷ [])

abbrev rows : List Conversation
rows = new_conversation newsletter ∷ new_conversation reply ∷ []

newsletter_waits : is_pending_draft newsletter ≡ true
unfolding is_pending_draft is_quarantined withheld is_spoofed trim trim_start trim_end
newsletter_waits = refl
