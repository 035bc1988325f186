-- ===== src/DraftWorkflow/Guards.antt =====
-- lib/useDraftWorkflow.ts: what may stop a send, and what does not.
use aimail.Base.{
  ℕ, ◌≡◌, refl, ◌∙◌, true, false, Option, none, some, Text, String, inl, inr, Option-cases, arith,
  if◌then◌else◌, or_else, is_some, eq_refl, string_eq,
}
use aimail.Base.Maps.{get, put, get-put}
use aimail.Email.{Tone}
use aimail.DraftGuards.{find_redaction_markers, find_template_placeholders, find_unfilled_blanks}
use aimail.DraftWorkflow.Types.{
  Render, Workflow, Platform, ConfirmKind, DraftAction, send_markers, send_templates, tone_warning,
  quiet_hours, schedule_email,
}
use aimail.DraftWorkflow.Requests.{start_request}
use aimail.DraftWorkflow.Countdown.{begin_undo_countdown}
use aimail.DraftWorkflow.View.{
  email_id, typed_of, typed_draft, draft, pending_action, is_draft_locked, is_busy,
  is_counting_down, tone,
}
use aimail.DraftWorkflow.Actions.{
  when_unlocked, any_in, ask, no_question, regenerate, refine, draft_from_template, set_draft,
  insert_text, send, schedule, confirm, continue_send, go_on, act_on, after_guard, has_blanks,
  next_question, is_triggered, applies, suggestion_now, closed_over, is_marker_warning, clear_if,
  schedule_checked,
}

-- While anything is in flight or counts down for the email, and once its reply is sent or held, no
-- control changes its draft, asks for a new one or starts a send.
locked-unchanged :
    (platform : Platform) (v : Render) (w : Workflow) (text : Text) (next : Tone)
    (template : String) (at : ℕ)
    → is_draft_locked v w ≡ true
    → (set_draft v text w ≡ w)
      × (insert_text v text w ≡ w)
      × (regenerate v next w ≡ w)
      × (refine v text w ≡ w)
      × (draft_from_template v template w ≡ w)
      × (send platform v w ≡ w)
      × (schedule platform v at w ≡ w)
unfolding set_draft insert_text regenerate refine draft_from_template send schedule
locked-unchanged platform v w text next template at locked =
    (still _, still _, still _, still _, still _, still _, still _)
  where
    still : (f : String → Workflow) → when_unlocked v w f ≡ w
    still f = elim (Option-cases (email_id v)) [
      | inl e ↦ unfold when_unlocked in rw (when_unlocked, e) refl
      | inr (id, e) ↦ unfold when_unlocked in rw (when_unlocked, e, locked) refl
    ]

-- The question about a check, asked of the draft that the render shows.
abbrev pub question : Render → Workflow → String → ConfirmKind → Option ℕ → Workflow
question v w id kind at =
    ask id (record { kind = kind; tone = tone v w; send_at = at }) (no_question w)

-- Send, on an email whose draft is not locked: it does nothing while a template's blank is in the
-- draft; else it asks about the first of redaction markers, template text, tone and quiet hours
-- that is found; and only if none is found it opens the undo window, for the draft on the screen.
pub send_lem :
    (platform : Platform) (v : Render) (w : Workflow) (id : String)
    → email_id v ≡ some id
    → is_draft_locked v w ≡ false
    → send platform v w ≡ (
        if any_in (find_unfilled_blanks (draft v w))
        then w
        else if any_in (find_redaction_markers (draft v w))
        then question v w id send_markers none
        else if any_in (find_template_placeholders (draft v w))
        then question v w id send_templates none
        else if platform.has_tone_issues (draft v w)
        then question v w id tone_warning none
        else if is_some (suggestion_now platform v)
        then question v w id quiet_hours none
        else begin_undo_countdown (closed_over v id w) (no_question w))
unfolding send when_unlocked has_blanks continue_send next_question is_triggered applies go_on
send_lem platform v w id e free = rw (when_unlocked, e, free) (ground arith)

-- Send later asks the same questions but the last, and then requests the schedule at once.
schedule_lem :
    (platform : Platform) (v : Render) (w : Workflow) (id : String) (at : ℕ)
    → email_id v ≡ some id
    → is_draft_locked v w ≡ false
    → schedule platform v at w ≡ (
        if any_in (find_unfilled_blanks (draft v w))
        then w
        else if any_in (find_redaction_markers (draft v w))
        then question v w id send_markers (some at)
        else if any_in (find_template_placeholders (draft v w))
        then question v w id send_templates (some at)
        else if platform.has_tone_issues (draft v w)
        then question v w id tone_warning (some at)
        else start_request id DraftAction.schedule (schedule_email (draft v w) at) (no_question w))
unfolding schedule when_unlocked has_blanks continue_send next_question is_triggered applies go_on
    schedule_checked
schedule_lem platform v w id at e free = rw (when_unlocked, e, free) (ground arith)

abbrev with_text : String → Text → Workflow → Workflow
with_text id text w = record w { typed_by_email = put id text w.typed_by_email }

set_draft-with_text :
    (v : Render) (w : Workflow) (id : String) (text : Text)
    → email_id v ≡ some id
    → is_draft_locked v w ≡ false
    → is_marker_warning (pending_action v w) ≡ false
    → set_draft v text w ≡ with_text id text w
unfolding set_draft clear_if when_unlocked
set_draft-with_text v w id text e free other = rw (when_unlocked, e, free, other) refl

draft-with_text :
    (v : Render) (w : Workflow) (id : String) (text : Text)
    → email_id v ≡ some id
    → draft v (with_text id text w) ≡ text
unfolding draft typed_draft typed_of
draft-with_text v w id text e =
    rw (typed_draft, e, get-put id id text w.typed_by_email, eq_refl id) refl

locked-with_text :
    (v : Render) (w : Workflow) (id : String) (text : Text)
    → is_draft_locked v (with_text id text w) ≡ is_draft_locked v w
unfolding is_draft_locked is_busy is_counting_down
locked-with_text v w id text = refl

pending-with_text :
    (v : Render) (w : Workflow) (id : String) (text : Text)
    → pending_action v (with_text id text w) ≡ pending_action v w
unfolding pending_action
pending-with_text v w id text = refl

confirm-tone_warning :
    (platform : Platform) (v : Render) (w : Workflow) (id : String) (asked : Tone)
    → email_id v ≡ some id
    → is_draft_locked v w ≡ false
    → pending_action v w ≡ some (record { kind = tone_warning; tone = asked; send_at = none })
    → suggestion_now platform v ≡ none
    → confirm platform v w ≡ begin_undo_countdown (closed_over v id w) (no_question w)
unfolding confirm act_on after_guard continue_send next_question is_triggered applies go_on
confirm-tone_warning platform v w id asked e free p quiet = rw (confirm, e, p, free) (ground arith)

-- Where no quiet hours suggest a later time, and the warning about the tone was asked by Send (and not
-- by Send later), on an email that is not locked: whatever text the reader types while that question
-- is open, with blanks and markers in it, confirming opens the undo window for that text.
pub confirm-sends_any_text :
    (platform : Platform) (v : Render) (w : Workflow) (id : String) (text : Text) (asked : Tone)
    → email_id v ≡ some id
    → is_draft_locked v w ≡ false
    → pending_action v w ≡ some (record { kind = tone_warning; tone = asked; send_at = none })
    → suggestion_now platform v ≡ none
    → (confirm platform v (set_draft v text w)).pending_send
      ≡ some (record {
        email_id = id;
        text = text;
        remind_if_no_reply = or_else (get id w.remind_by_email) false;
      })
unfolding begin_undo_countdown closed_over
confirm-sends_any_text platform v w id text asked e free p quiet =
    rw
      (
        set_draft-with_text v w id text e free (rw p (unfold is_marker_warning in refl)),
        confirm-tone_warning platform v (with_text id text w) id asked e
            (locked-with_text v w id text ∙ free) (pending-with_text v w id text ∙ p) quiet,
        draft-with_text v w id text e,
      )
      refl
