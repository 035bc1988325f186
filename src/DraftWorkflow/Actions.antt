-- ===== src/DraftWorkflow/Actions.antt =====
-- lib/useDraftWorkflow.ts: the handlers that the controls call.
use aimail.Base.{
  ℕ, Bool, true, false, not, ◌&&◌, ◌||◌, Option, none, some, List, [], ◌∷◌, Text, String, string_eq,
  or_else, is_some, drop, filter, find, if◌then◌else◌,
}
use aimail.Base.Maps.{get, put}
use aimail.Email.{Email, Tone}
use aimail.Details.{restore_details, detail_values, Detail}
use aimail.QuietHours.{QuietHours, QuietSuggestion, quiet_suggestion}
use aimail.QuietHours.Clocks.{Offset}
use aimail.DraftGuards.{find_redaction_markers, find_template_placeholders, find_unfilled_blanks}
use aimail.DraftWorkflow.Types.{
  Render, Workflow, Platform, PendingAction, PendingSend, ConfirmKind, DraftAction, replace_edits,
  send_markers, send_templates, tone_warning, quiet_hours, regenerate_email, refine_email,
  adapt_template, schedule_email, cancel_schedule_email,
}
use aimail.DraftWorkflow.Requests.{start_request}
use aimail.DraftWorkflow.Countdown.{begin_undo_countdown}
use aimail.DraftWorkflow.View.{
  email_id, draft, tone, pending_action, has_edits, is_draft_locked, is_scheduling,
}

-- `items.length > 0`.
abbrev pub any_in : List Text → Bool
any_in [] = false
any_in (t ∷ ts) = true

unfoldable pub ask : String → PendingAction → Workflow → Workflow
ask id action w = record w { pending = some (record { email_id = id; value = action }) }

unfoldable pub no_question : Workflow → Workflow
no_question w = record w { pending = none }

unfoldable pub start_regenerate : String → Tone → Workflow → Workflow
start_regenerate id next w =
    start_request id DraftAction.regenerate (regenerate_email next)
      (record w { chosen_tone = some (record { email_id = id; value = next }) })

-- Runs `action` on the email on screen, unless there is none or its draft is locked.
unfoldable pub when_unlocked : Render → Workflow → (String → Workflow) → Workflow
when_unlocked v w action = elim (email_id v) [
  | none ↦ w
  | some id ↦ if is_draft_locked v w then w else action id
]

-- `regenerate`, which is `setTone` too.
unfoldable pub regenerate : Render → Tone → Workflow → Workflow
regenerate v next w = when_unlocked v w λ id.
    if has_edits v w
    then ask id (record { kind = replace_edits; tone = next; send_at = none }) w
    else start_regenerate id next w

unfoldable pub refine : Render → Text → Workflow → Workflow
refine v instruction w =
    when_unlocked v w
      λ id. start_request id DraftAction.refine (refine_email instruction (draft v w) (tone v w)) w

unfoldable pub draft_from_template : Render → String → Workflow → Workflow
draft_from_template v template w =
    when_unlocked v w
      λ id. start_request id DraftAction.template (adapt_template template (tone v w)) w

unfoldable pub clear_if : Bool → Workflow → Workflow
clear_if true w = no_question w
clear_if false w = w

unfoldable pub is_marker_warning : Option PendingAction → Bool
is_marker_warning none = false
is_marker_warning (some action) = elim action.kind [ send_markers ↦ true | _ ↦ false ]

-- `setDraft`: the marker warning is moot once every marker has been typed over.
unfoldable pub set_draft : Render → Text → Workflow → Workflow
set_draft v text w = when_unlocked v w λ id.
    clear_if (is_marker_warning (pending_action v w) && not (any_in (find_redaction_markers text)))
      (record w { typed_by_email = put id text w.typed_by_email })

pub details_of : Option Email → List Detail
details_of none = []
details_of (some email) = email.details

-- `insertText`: shown the way the editor shows the stored draft.
unfoldable pub insert_text : Render → Text → Workflow → Workflow
insert_text v filled w =
    set_draft v
      (if v.is_hiding_details
        then filled
        else restore_details filled (detail_values (details_of v.email)))
      w

unfoldable pub set_remind_if_no_reply : Render → Bool → Workflow → Workflow
set_remind_if_no_reply v is_on w = elim (email_id v) [
  | none ↦ w
  | some id ↦ record w { remind_by_email = put id is_on w.remind_by_email }
]

unfoldable pub cancel_schedule : Render → Workflow → Workflow
cancel_schedule v w = elim (email_id v) [
  | none ↦ w
  | some id ↦
      if is_scheduling v
      then w
      else start_request id DraftAction.cancel_schedule cancel_schedule_email w
]

-- The checks before a send, in order, and the number of each.
abbrev pub send_guards : List ConfirmKind
send_guards = send_markers ∷ send_templates ∷ tone_warning ∷ quiet_hours ∷ []

-- `sendGuards.findIndex(…) + 1`; a kind that is not among them has the index -1.
unfoldable pub after_guard : ConfirmKind → ℕ
after_guard replace_edits = 0
after_guard send_markers = 1
after_guard send_templates = 2
after_guard tone_warning = 3
after_guard quiet_hours = 4

-- `unfilledBlanks.length > 0`.
unfoldable pub has_blanks : Render → Workflow → Bool
has_blanks v w = any_in (find_unfilled_blanks (draft v w))

pub offset_of : Option Email → Option Offset
offset_of none = none
offset_of (some email) = email.sender_utc_offset_minutes

-- A Send later is not asked about quiet hours.
unfoldable pub applies : Option ℕ → ConfirmKind → Bool
applies none kind = true
applies (some at) quiet_hours = false
applies (some at) _ = true

-- The send that `beginUndoCountdown` closes over.
unfoldable pub closed_over : Render → String → Workflow → PendingSend
closed_over v id seen = record {
  email_id = id;
  text = draft v seen;
  remind_if_no_reply = or_else (get id seen.remind_by_email) false;
}

unfoldable pub schedule_checked : Render → ℕ → Workflow → Workflow → Workflow
schedule_checked v send_at seen w = elim (email_id v) [
  | none ↦ w
  | some id ↦
      if is_draft_locked v seen || has_blanks v seen
      then w
      else start_request id DraftAction.schedule (schedule_email (draft v seen) send_at) w
]

unfoldable pub go_on : Render → String → Option ℕ → Workflow → Workflow → Workflow
go_on v id none seen w = begin_undo_countdown (closed_over v id seen) w
go_on v id (some at) seen w = schedule_checked v at seen w

module _ (platform : Platform) where
  unfoldable pub suggestion_in : Render → Option QuietHours → Option QuietSuggestion
  suggestion_in v none = none
  suggestion_in v (some hours) =
      quiet_suggestion platform.zone_offset v.now (offset_of v.email) hours

  unfoldable pub suggestion_now : Render → Option QuietSuggestion
  suggestion_now v = suggestion_in v v.quiet_hours

  -- Whether a check stops the text.
  unfoldable pub is_triggered : Render → Text → ConfirmKind → Bool
  is_triggered v text replace_edits = false
  is_triggered v text send_markers = any_in (find_redaction_markers text)
  is_triggered v text send_templates = any_in (find_template_placeholders text)
  is_triggered v text tone_warning = platform.has_tone_issues text
  is_triggered v text quiet_hours = is_some (suggestion_now v)

  -- The first check from that number on that stops the text.
  unfoldable pub next_question : Render → Text → ℕ → Option ℕ → Option ConfirmKind
  next_question v text from send_at =
      find (is_triggered v text) (filter (applies send_at) (drop from send_guards))

  -- `continueSend`; `seen` is the state that the render saw, and `w` the state by now.
  unfoldable pub continue_send : Render → String → ℕ → Option ℕ → Workflow → Workflow → Workflow
  continue_send v id from send_at seen w = elim (next_question v (draft v seen) from send_at) [
    | some kind ↦ ask id (record { kind = kind; tone = tone v seen; send_at = send_at }) w
    | none ↦ go_on v id send_at seen w
  ]

  unfoldable pub send : Render → Workflow → Workflow
  send v w =
      when_unlocked v w
        λ id. if has_blanks v w then w else continue_send v id 0 none w (no_question w)

  unfoldable pub schedule : Render → ℕ → Workflow → Workflow
  schedule v send_at w =
      when_unlocked v w
        λ id. if has_blanks v w then w else continue_send v id 0 (some send_at) w (no_question w)

  unfoldable pub act_on : Render → String → PendingAction → Workflow → Workflow → Workflow
  act_on v id action seen w = elim action.kind [
    | replace_edits ↦ start_regenerate id action.tone w
    | _ ↦ continue_send v id (after_guard action.kind) action.send_at seen w
  ]

  -- `confirm`: what was asked is done with the draft as it is now.
  unfoldable pub confirm : Render → Workflow → Workflow
  confirm v w = elim (email_id v) [
    | none ↦ no_question w
    | some id ↦ elim (pending_action v w) [
      | none ↦ no_question w
      | some action ↦
          if is_draft_locked v w then no_question w else act_on v id action w (no_question w)
    ]
  ]

  -- The quiet-hours question's other answer.
  unfoldable pub send_at_suggestion : Render → Workflow → Workflow
  send_at_suggestion v w = elim (suggestion_now v) [
    | none ↦ no_question w
    | some suggestion ↦ schedule_checked v suggestion.send_at w (no_question w)
  ]
