-- ===== src/Demo/PageTests.antt =====
-- demo/pages.ts: the theorems at one state.
use aimail.Base.{
  Text, true, ◌⊎◌, map, false, none, some, [], ◌∷◌, ◌+◌, codes, string_eq, length, filter, not, ◌-◌,
  ◌/◌, ◌≡◌, refl, arith, ◌≤◌,
}
use aimail.Base.Maps.{get}
use aimail.Email.{Email, professional, medium, client, complete}
use aimail.Demo.Trail.{genesis_hash, head_hash, chained_audit, chained_from, hashed_text}
use aimail.Demo.TrailLaws.{IsUnseparated, Collision, hashed_from, same_head-same_rows}
use aimail.Demo.Types.{ActionGroup, settings, other, Call, DemoState, text}
use aimail.Demo.State.{email_by_id}
use aimail.Demo.PageTypes.{PageData, english, local}
use aimail.Demo.Settings.{writing_style, holding_reply_error}
use aimail.Demo.Pages
use aimail.Demo.PageRoutes.{handle_page}
use aimail.Demo.PageOutcomes.{PageOutcome, handle_page-Outcome}
use aimail.Demo.PageUndo.{after, with_trail, put_back-restores}
use aimail.Demo.Soundness.{IsSound}
use aimail.Demo.PageSound.{handle_page-IsSound}
use aimail.Demo.TodoLaws.{days_from, working_days_since_lem}
use aimail.Demo.Todo.{day_ms, is_weekend, working_days_since}

abbrev pub question : Email
question = record {
  id = "m1";
  thread_id = none;
  sender = codes "a@b.c";
  subject = codes "Order";
  timestamp = 5;
  is_read = false;
  is_automated = false;
  is_answered = false;
  is_drafting = false;
  priority = medium;
  category = client;
  category_confidence = none;
  tone = professional;
  draft_reply = codes "Thanks?";
  critic_confidence = none;
  review_reasons = [];
  action_items = codes "Call" ∷ [];
  ai_summary = [];
  details = [];
  egress = [];
  auth_status = none;
  masking = some complete;
  sent_at = none;
  scheduled_for = none;
  snoozed_until = none;
  sender_utc_offset_minutes = none;
}

abbrev pub demo : DemoState
demo = record {
  start = question ∷ [];
  emails = question ∷ [];
  dismissed = [];
  not_waiting = [];
  followed_up = [];
  waiting_days = 3;
  audit = [];
  templates = [];
  documents = [];
  holding_reply = record { enabled = false; templates = []; default_language = english };
  personal_quiet_hours = none;
  scan_reading = record { available = false; mode = local };
  writing_style = none;
  compose_drafts = [];
}

abbrev pub given : PageData
given = record {
  weekday = λ day. day / day_ms;
  local_date = λ day. (2026, 0, 1);
  start_of_day = λ now. 0;
  to_lower = λ t. t;
  follow_ups = λ id. none;
  owner_name = codes "Aisyah";
  company = record {
    start = codes "21:00:00";
    end = codes "08:00:00";
    timezone = codes "Asia/Kuala_Lumpur";
    weekend_days = 6 ∷ 7 ∷ [];
  };
  new_template = λ now. "t";
  new_document = λ now. "d";
  new_example = λ now. "e";
  can_hash = true;
  sha256 = λ t. map (λ c. c + 32) t;
  read_number = λ t. none;
}

abbrev pub call : Call
call = record {
  params = "m1" ∷ [];
  json = ("text", text (codes "First.")) ∷ [];
  query = [];
  now = 10;
}

abbrev later : Call
later = record call { now = 20 }

pub found_question : email_by_id "m1" (question ∷ []) ≡ some question
unfolding email_by_id
found_question = refl

not_dismissed : get "m1" demo.dismissed ≡ none
unfolding get
not_dismissed = refl

handle_page-Outcome_example : PageOutcome demo (handle_page given Pages.add_example call demo)
handle_page-Outcome_example = handle_page-Outcome given Pages.add_example call demo

put_back-restores_example :
    with_trail [] (after given Pages.undismiss later (after given Pages.dismiss call demo)) ≡ demo
put_back-restores_example =
    put_back-restores given call later demo question refl found_question not_dismissed

demo-IsSound : IsSound demo
unfolding writing_style holding_reply_error
demo-IsSound = record { documents_counted = tt; reply_passes = refl; examples_fit = omega arith }

handle_page-IsSound_example : IsSound (handle_page given Pages.add_document call demo).0
handle_page-IsSound_example = handle_page-IsSound given Pages.add_document call demo demo-IsSound

passed : 100 ≤ 300000000
passed = omega arith

working_days_since_lem_example :
    working_days_since given demo 100 300000000
    ≡ length (
        filter
          (λ day. not (is_weekend given demo day))
          (days_from ((300000000 - 100) / day_ms) (100 + day_ms)))
working_days_since_lem_example = working_days_since_lem given demo 100 300000000 passed

-- Digests without the character that separates fields.
shifted : (t : Text) → IsUnseparated (given.sha256 t)
shifted [] = refl
shifted (c ∷ t) = ground (arith, shifted t)

-- A row with a group, and a trail of it; no hash is taken of the group.
abbrev filed : ActionGroup → DemoState
filed group = record demo {
  audit =
      record {
        number = 1;
        action = "todo_settings";
        group = group;
        created_at = 8640000000000010;
        fields = [];
        success = true;
      }
      ∷ [];
}

heads :
    head_hash (chained_audit given.sha256 (filed settings))
    ≡ head_hash (chained_audit given.sha256 (filed other))
unfolding chained_audit chained_from head_hash hashed_text
heads = refl

same_head-same_rows_example :
    (hashed_from given.sha256 genesis_hash 1 (filed settings).audit
      ≡ hashed_from given.sha256 genesis_hash 1 (filed other).audit)
    ⊎ Collision given.sha256
same_head-same_rows_example =
    same_head-same_rows given.sha256 (filed settings) (filed other) shifted refl heads
