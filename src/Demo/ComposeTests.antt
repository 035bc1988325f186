-- ===== src/Demo/ComposeTests.antt =====
-- demo/compose.ts, lib/composeList.ts: the theorems at one draft.
use aimail.Base.{true, false, not, all, is_empty, none, some, [], ◌∷◌, codes, ◌≡◌, refl, ◌≢◌}
use aimail.Email.{professional}
use aimail.ComposeDraft.{ComposeDraft, ComposeState}
use aimail.ComposeList.{empty_compose_list, with_draft, summary_of}
use aimail.ComposeList.Order.{row_of, NoTwice, row_of-with_draft}
use aimail.Demo.Json.{param, field}
use aimail.Base.{trim, trim_start, trim_end}
use aimail.Base.Maps.{get}
use aimail.Details.Tests.{nothing_missing, restored_plain, complete_plain, plain_restored}
use aimail.Details.{detail_values, restore_details}
use aimail.Masking.{starts_with}
use aimail.DraftGuards.Tests.{no_markers, no_blanks}
use aimail.Demo.PageTypes.{english, local}
use aimail.Demo.Types.{Call, DemoState, ok}
use aimail.Demo.Compose.{
  ComposeData, refused_send, sent_draft, apply, email_text, is_nil, is_blank, text_or, tone_or,
  tokenised, longest_first, insert_longest, replace_each, replace_all, strings,
}
use aimail.Demo.ComposeCalls.{
  saved, send, patch, remove, draft_by_id, handle_compose, with_found, on_draft, send_found,
  send_unless, put_draft, assign_draft,
}
use aimail.ComposeEditor.Types.{Editor, Render, idle}
use aimail.ComposeEditor.Actions
use aimail.ComposeEditor.Actions.{
  any_in, blockers, send_blockers, fields, fields_with, closed_over, kept_if, outgoing_text, values,
  shown, words_or, addresses_or, voice_or,
}
use aimail.Demo.ComposeDelivery.{email_json, with_email, approved-accepted}
use aimail.Demo.State.{record_row}
use aimail.Demo.SentDrafts.{sent_stays, sent_passes}

abbrev notice : ComposeDraft
notice = record {
  id = "c1";
  to = codes "a@b.c" ∷ [];
  cc = [];
  subject = codes "Leave";
  brief = codes "leave";
  body = codes "Please plan.";
  tone = professional;
  state = ComposeState.draft;
  sources = [];
  review_reasons = [];
  critic_confidence = none;
  details = [];
  egress = [];
  generated_at = none;
  sent_at = none;
  updated_at = 10;
}

abbrev given : ComposeData
given = record {
  details = [];
  sources = [];
  written_subject = codes "S";
  written_body = codes "B";
  refined_direct = codes "D";
  refined_deadline = codes "E";
  suggested_direct = [];
  suggested_deadline = [];
  new_id = λ number now. "new";
}

abbrev demo_with : ComposeDraft → DemoState
demo_with draft = record {
  start = [];
  emails = [];
  dismissed = [];
  not_waiting = [];
  followed_up = [];
  waiting_days = 3;
  audit = [];
  templates = [];
  documents = [];
  holding_reply = record { enabled = false; templates = []; default_language = english };
  personal_quiet_hours = none;
  scan_reading = record { available = false; mode = local };
  writing_style = none;
  compose_drafts = draft ∷ [];
}

abbrev call : Call
call = record { params = "c1" ∷ []; json = []; query = []; now = 10 }

-- The draft as the send of it leaves it.
abbrev sent_notice : ComposeDraft
sent_notice = record notice { state = ComposeState.sent; sent_at = some 10; updated_at = 10 }

found_notice : draft_by_id "c1" (notice ∷ []) ≡ some notice
unfolding draft_by_id
found_notice = refl

found_sent : draft_by_id "c1" (sent_notice ∷ []) ≡ some sent_notice
unfolding draft_by_id
found_sent = refl

passes : refused_send notice ≡ none
unfolding refused_send is_nil is_blank email_text trim trim_start trim_end
passes = rw (nothing_missing, restored_plain, no_markers) refl

applied : apply call notice ≡ notice
unfolding apply field get strings text_or tone_or
applied = refl

sent_goes :
    draft_by_id "c1" (handle_compose given send call (demo_with notice)).0.compose_drafts
    ≡ some sent_notice
unfolding draft_by_id handle_compose with_found on_draft send_found send_unless put_draft
    assign_draft record_row sent_draft
sent_goes = rw (applied, passes) refl

patch≢remove : patch ≢ remove
patch≢remove e = cc

draft≢sent : ComposeState.draft ≢ ComposeState.sent
draft≢sent e = cc

sent_stays_example :
    draft_by_id "c1" (handle_compose given patch call (demo_with sent_notice)).0.compose_drafts
    ≡ some sent_notice
sent_stays_example =
    sent_stays given patch call (demo_with sent_notice) "c1" sent_notice found_sent refl
      patch≢remove

sent_passes_example :
    (ComposeState.draft ≡ ComposeState.draft)
    × (send ≡ send)
    × (param call ≡ "c1")
    × (refused_send sent_notice ≡ none)
sent_passes_example =
    sent_passes given send call (demo_with notice) "c1" notice sent_notice found_notice draft≢sent
      sent_goes refl

none_twice : NoTwice []
unfolding NoTwice
none_twice = tt

row_of-with_draft_example :
    (row_of "c1" (with_draft empty_compose_list notice).drafts ≡ some (summary_of notice))
    × (row_of "c1" (with_draft empty_compose_list notice).sent ≡ none)
unfolding empty_compose_list
row_of-with_draft_example =
    row_of-with_draft (record { drafts = []; sent = [] }) notice "c1" none_twice none_twice

-- A draft with a hidden name, and an email that is not about it.
abbrev detailed : ComposeDraft
detailed = record notice {
  details =
      record { placeholder = codes "[PERSON_1]"; kind = "PERSON"; value = codes "Aisyah" } ∷ [];
}

abbrev view : Render
view = record { draft = detailed; is_hiding_details = true; kept_failure = none }

abbrev opened : Editor
opened = record {
  edits = [];
  unsaved = [];
  is_timer_set = false;
  queue = [];
  saves_made = [];
  save_status = idle;
  ai_body = none;
  busy = none;
  failure = none;
  answered_failure = none;
  pending = none;
  remind_if_no_reply = false;
  announcement = none;
  frames = [];
  countdown = record { seconds_left = none; timer = none; pending_send = none; made = [] };
  next_task = 0;
  tasks = [];
  issued = [];
  is_deleted = false;
}

nothing_blocks : blockers view opened ≡ []
unfolding blockers send_blockers fields fields_with shown words_or addresses_or values any_in
    Actions.is_blank kept_if outgoing_text trim trim_start trim_end get
nothing_blocks = rw (complete_plain (detail_values detailed.details), no_markers, no_blanks) refl

found_detailed : draft_by_id "c1" (detailed ∷ []) ≡ some detailed
unfolding draft_by_id
found_detailed = refl

subject_plain : tokenised (fields view opened).subject detailed ≡ (fields view opened).subject
unfolding fields fields_with shown words_or get tokenised longest_first insert_longest replace_each
    replace_all starts_with
subject_plain = refl

body_plain : tokenised (fields view opened).body detailed ≡ (fields view opened).body
unfolding fields fields_with shown words_or get tokenised longest_first insert_longest replace_each
    replace_all starts_with
body_plain = refl

restored_same :
    restore_details (outgoing_text (fields view opened)) (values view)
    ≡ outgoing_text (fields view opened)
unfolding outgoing_text fields fields_with shown words_or get
restored_same = plain_restored (values view)

abbrev posted : Call
posted = record call { json = email_json (closed_over view opened).email }

to_there : all (λ t. not (is_empty (trim t))) (fields view opened).to ≡ true
unfolding fields fields_with addresses_or get trim trim_start trim_end
to_there = refl

cc_there : all (λ t. not (is_empty (trim t))) (fields view opened).cc ≡ true
unfolding fields fields_with addresses_or get
cc_there = refl

approved-accepted_example :
    let sent = sent_draft 10 (with_email (closed_over view opened).email 10 detailed) in
    ((handle_compose given send posted (demo_with detailed)).1 ≡ ok (saved sent))
    × ((handle_compose given send posted (demo_with detailed)).0.compose_drafts
        ≡ assign_draft (param posted) sent (detailed ∷ []))
approved-accepted_example =
    approved-accepted given view opened posted (demo_with detailed) found_detailed refl
      subject_plain body_plain restored_same nothing_blocks refl to_there cc_there
