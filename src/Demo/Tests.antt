-- ===== src/Demo/Tests.antt =====
-- demo/: the theorems at a demo with one email, and small runs.
use aimail.Base.{false, none, some, [], ◌∷◌, codes, ◌≢◌}
use aimail.Email.{Email, professional, low, client}
use aimail.Demo.PageTypes.{english, local}
use aimail.Demo.Types.{Call, text, DemoState, DemoData}
use aimail.Demo.Emails.{send, by_thread, handle}
use aimail.Demo.Outcomes.{Outcome}
use aimail.Demo.EmailLaws.{handle-Outcome}

abbrev order : Email
order = record {
  id = "m1";
  thread_id = some "t1";
  sender = codes "a@b.c";
  subject = codes "Order";
  timestamp = 7;
  is_read = false;
  is_automated = false;
  is_answered = false;
  is_drafting = false;
  priority = low;
  category = client;
  category_confidence = none;
  tone = professional;
  draft_reply = codes "Thanks";
  critic_confidence = none;
  review_reasons = [];
  action_items = [];
  ai_summary = [];
  details = [];
  egress = [];
  auth_status = none;
  masking = none;
  sent_at = none;
  scheduled_for = some 90;
  snoozed_until = none;
  sender_utc_offset_minutes = none;
}

abbrev demo : DemoState
demo = record {
  start = order ∷ [];
  emails = order ∷ [];
  dismissed = [];
  not_waiting = [];
  followed_up = [];
  waiting_days = 3;
  audit = [];
  templates = [];
  documents = [];
  holding_reply = record { enabled = false; templates = []; default_language = english };
  personal_quiet_hours = none;
  scan_reading = record { available = false; mode = local };
  writing_style = none;
  compose_drafts = [];
}

abbrev given : DemoData
given = record {
  answers = λ id. none;
  confirmed_drafts = λ id. none;
  suggested_direct = [];
  suggested_deadline = [];
  read_date = λ t. none;
}

abbrev call : Call
call = record {
  params = "m1" ∷ [];
  json = ("draft", text (codes "Thank you")) ∷ [];
  query = [];
  now = 10;
}

handle-Outcome_example : Outcome "m1" demo (handle given send call demo)
handle-Outcome_example = handle-Outcome given send call demo

send≢by_thread : send ≢ by_thread
send≢by_thread e = cc
