-- ===== src/DraftWorkflow/Tests.antt =====
-- lib/useDraftWorkflow.ts: runs of the hook at a concrete email, and its theorems there.
use aimail.Base.{
  ◌+◌, ◌≤◌, ◌≡◌, refl, true, false, none, some, List, [], ◌∷◌, codes, arith, length, leb, filter,
  ◌==◌, eq_iff, if◌then◌else◌, is_some,
}
use aimail.Base.Maps.{get}
use aimail.Email.{Email, professional, medium, client}
use aimail.QuietHours.Clocks.{ahead}
use aimail.DraftGuards.{find_redaction_markers, find_template_placeholders, find_unfilled_blanks}
use aimail.DraftWorkflow.Types.{
  Render, Workflow, Platform, Mutation, Job, DraftAction, PendingSend, initial, for_email,
  tone_warning, refine_email, send_markers, send_templates, quiet_hours,
}
use aimail.DraftWorkflow.Requests.{start_send, is_latest, seq_of, request_done, request_failed}
use aimail.DraftWorkflow.Countdown.{begin_undo_countdown, undo_send}
use aimail.DraftWorkflow.View.{
  email_id, email_id_of, draft, comparison, is_draft_locked, is_busy, is_pending_for, is_scheduling,
  is_waiting_for_draft, is_drafting, is_counting_down, is_positive, is_final, pending_action,
  variables_are,
}
use aimail.DraftWorkflow.Actions.{
  any_in, set_draft, send, confirm, suggestion_now, suggestion_in, closed_over, no_question,
}
use aimail.DraftWorkflow.Events.{Event, run, sent, ticked, undone, left}
use aimail.DraftWorkflow.Window.{initial-IsValid}
use aimail.DraftWorkflow.Approvals.{approved, all_approvals, run-approved_le}
use aimail.DraftWorkflow.Settled.{AllSettle, run-AllSettle}
use aimail.DraftWorkflow.Seconds.{ticks, undo_window}
use aimail.DraftWorkflow.Answers.{other_email_answer}
use aimail.DraftWorkflow.Guards.{question, send_lem, confirm-sends_any_text}

abbrev mail : Email
mail = record {
  id = "m1";
  thread_id = none;
  sender = codes "Aisyah <aisyah@example.com>";
  subject = codes "Meeting";
  timestamp = 8640000000000000;
  is_read = true;
  is_automated = false;
  is_answered = false;
  is_drafting = false;
  priority = medium;
  category = client;
  category_confidence = none;
  tone = professional;
  draft_reply = codes "Dear Aisyah, see you at ten.";
  critic_confidence = none;
  review_reasons = [];
  action_items = [];
  ai_summary = [];
  details = [];
  egress = [];
  auth_status = none;
  masking = none;
  sent_at = none;
  scheduled_for = none;
  snoozed_until = none;
  sender_utc_offset_minutes = none;
}

abbrev idle : Mutation
idle = record { is_pending = false; variables = none }

abbrev busy : Mutation
busy = record { is_pending = true; variables = some "m1" }

abbrev render : Render
render = record {
  email = some mail;
  is_loading = false;
  is_hiding_details = true;
  regenerating = idle;
  refining = idle;
  adapting = idle;
  scheduling = idle;
  cancelling = idle;
  sending = idle;
  quiet_hours = none;
  now = 8640000000000000;
}

-- Three exclamation marks are one issue that the tone check knows.
abbrev platform : Platform
platform = record {
  has_tone_issues = λ text. leb 3 (length (filter (λ c. c == b'!') text));
  zone_offset = λ zone at. ahead 480;
}

abbrev history : List (Render × Event)
history =
    (render, sent) ∷ (render, ticked) ∷ (render, undone) ∷ (render, sent) ∷ (render, left) ∷ []

run-approved_le_example :
    approved (run platform history initial) ≤ approved initial + all_approvals platform history
run-approved_le_example = run-approved_le platform history initial initial-IsValid

run-AllSettle_example : AllSettle platform history initial
run-AllSettle_example = run-AllSettle platform history initial initial-IsValid

abbrev approved_send : PendingSend
approved_send = record { email_id = "m1"; text = codes "Hello"; remind_if_no_reply = true }

undo_window_example :
    ((ticks 3 (begin_undo_countdown approved_send initial)).issued
      ≡ (begin_undo_countdown approved_send initial).issued)
    × ((ticks 9 (ticks 5 (begin_undo_countdown approved_send initial))).issued
        ≡ (start_send approved_send (begin_undo_countdown approved_send initial)).issued)
    × ((ticks 9 (undo_send (ticks 3 (begin_undo_countdown approved_send initial)))).issued
        ≡ (begin_undo_countdown approved_send initial).issued)
undo_window_example = undo_window approved_send initial 3 9 (omega arith)

unlocked : is_draft_locked render initial ≡ false
unfolding is_draft_locked is_busy is_pending_for is_scheduling is_waiting_for_draft is_drafting
    is_counting_down is_positive is_final
unlocked = refl

on_screen : email_id render ≡ some "m1"
unfolding email_id email_id_of
on_screen = refl

send_lem_example : send platform render initial ≡ (
    if any_in (find_unfilled_blanks (draft render initial))
    then initial
    else if any_in (find_redaction_markers (draft render initial))
    then question render initial "m1" send_markers none
    else if any_in (find_template_placeholders (draft render initial))
    then question render initial "m1" send_templates none
    else if platform.has_tone_issues (draft render initial)
    then question render initial "m1" tone_warning none
    else if is_some (suggestion_now platform render)
    then question render initial "m1" quiet_hours none
    else begin_undo_countdown (closed_over render "m1" initial) (no_question initial))
send_lem_example = send_lem platform render initial "m1" on_screen unlocked

-- A warning about the tone is on screen.
abbrev warned : Workflow
warned = record initial {
  pending = some (record {
    email_id = "m1";
    value = record { kind = tone_warning; tone = professional; send_at = none };
  });
}

warned_unlocked : is_draft_locked render warned ≡ false
unfolding is_draft_locked is_busy is_pending_for is_scheduling is_waiting_for_draft is_drafting
    is_counting_down is_positive is_final
warned_unlocked = refl

warning :
    pending_action render warned
    ≡ some (record { kind = tone_warning; tone = professional; send_at = none })
unfolding pending_action for_email email_id email_id_of
warning = refl

-- A blank of a saved template, typed while the question is open, goes out.
confirm-sends_any_text_example :
    (confirm platform render (set_draft render (codes "Hi {{name}}") warned)).pending_send
    ≡ some (record { email_id = "m1"; text = codes "Hi {{name}}"; remind_if_no_reply = false })
unfolding suggestion_now suggestion_in get
confirm-sends_any_text_example =
    confirm-sends_any_text platform render warned "m1" (codes "Hi {{name}}") professional on_screen
      warned_unlocked warning refl

abbrev sending_render : Render
sending_render = record render { sending = busy }

locked : is_draft_locked sending_render initial ≡ true
unfolding is_draft_locked is_busy is_pending_for is_scheduling is_waiting_for_draft is_drafting
    is_counting_down is_positive is_final email_id email_id_of variables_are
locked = refl

-- A Refine of the first email, and the state in which it is the last request.
abbrev refining : Job
refining = record {
  email_id = "m1";
  action = DraftAction.refine;
  seq = 1;
  request = refine_email (codes "shorter") (codes "A long draft") professional;
}

abbrev refined_once : Workflow
refined_once = record initial { request_seq = ("m1", 1) ∷ []; issued = refining ∷ [] }

abbrev refined_twice : Workflow
refined_twice = record initial { request_seq = ("m1", 2) ∷ []; issued = refining ∷ refining ∷ [] }

stale : is_latest refining refined_twice ≡ false
unfolding is_latest seq_of get
stale = refl

latest : is_latest refining refined_once ≡ true
unfolding is_latest seq_of get
latest = refl

abbrev other_render : Render
other_render = record render { email = some (record mail { id = "m2" }) }

other_on_screen : email_id other_render ≡ some "m2"
unfolding email_id email_id_of
other_on_screen = refl

other_email_answer_example :
    (comparison other_render (request_done refining refined_once)
      ≡ comparison other_render refined_once)
    × (for_email (request_done refining refined_once).failed (some "m2")
        ≡ for_email refined_once.failed (some "m2"))
    × (comparison other_render (request_failed refining "busy" refined_once)
        ≡ comparison other_render refined_once)
    × (for_email (request_failed refining "busy" refined_once).failed (some "m2") ≡ (
        if is_latest refining refined_once
        then none
        else for_email refined_once.failed (some "m2")))
other_email_answer_example =
    other_email_answer refining "busy" refined_once other_render "m2" other_on_screen
      (ground (arith, eq_iff "m1" "m2"))
