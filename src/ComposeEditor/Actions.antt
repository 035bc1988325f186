-- ===== src/ComposeEditor/Actions.antt =====
-- lib/useComposeDraft.ts: the fields on screen, the send's blockers and checks, and the handlers.
use aimail.Base.{
  ℕ, Bool, true, false, not, ◌&&◌, ◌||◌, Option, none, some, List, [], ◌∷◌, ◌++◌, String, string_eq,
  Text, text_eq, is_some, is_empty, trim, find, drop, ◌==◌, if◌then◌else◌,
}
use aimail.Base.Maps.{get, put}
use aimail.Email.{Tone}
use aimail.ComposeDraft.{ComposeState}
use aimail.Details.{DetailValues, detail_values, has_missing_details, restore_details}
use aimail.DraftGuards.{find_redaction_markers, find_template_placeholders, find_unfilled_blanks}
use aimail.DraftWorkflow.Types.{ConfirmKind, replace_edits, send_templates, tone_warning}
use aimail.UndoCountdown
use aimail.ComposeEditor.Edits.{Edits, FieldValue, addresses, words, voice}
use aimail.ComposeEditor.Types.{
  Editor, Render, ComposeFields, Approved, SendBlocker, no_recipient, no_subject, no_body,
  missing_details, unfilled_blanks, redaction_markers, ComposeAction, ComposeFailure,
  ComposeSendFailure, SettleOutcome, write_email, refine_email, settle_outcome, delete_email,
}
use aimail.ComposeEditor.Saving.{save_now, clear_timer}
use aimail.ComposeEditor.Tasks.{run_now, run_saved, set_countdown}

-- `items.length > 0`, `items.length === 0` and `text.trim() === ""`.
unfoldable pub any_in {ℓ} : {A : Type ℓ} → List A → Bool
any_in [] = false
any_in (t ∷ ts) = true

unfoldable pub is_blank : Text → Bool
is_blank t = is_empty (trim t)

unfoldable pub values : Render → DetailValues
values v = detail_values v.draft.details

unfoldable pub shown : Render → Text → Text
shown v text = if v.is_hiding_details then text else restore_details text (values v)

-- A field's edit, or what is stored; a key holds values of its field's type only.
unfoldable pub addresses_or : Option FieldValue → List Text → List Text
addresses_or (some (addresses list)) stored = list
addresses_or _ stored = stored

unfoldable pub words_or : Option FieldValue → Text → Text
words_or (some (words text)) stored = text
words_or _ stored = stored

unfoldable pub voice_or : Option FieldValue → Tone → Tone
voice_or (some (voice tone)) stored = tone
voice_or _ stored = stored

unfoldable pub fields_with : Render → Edits → ComposeFields
fields_with v edits = record {
  to = addresses_or (get "to" edits) v.draft.to;
  cc = addresses_or (get "cc" edits) v.draft.cc;
  subject = words_or (get "subject" edits) (shown v v.draft.subject);
  brief = words_or (get "brief" edits) (shown v v.draft.brief);
  body = words_or (get "body" edits) (shown v v.draft.body);
  tone = voice_or (get "tone" edits) v.draft.tone;
}

unfoldable pub fields : Render → Editor → ComposeFields
fields v w = fields_with v w.edits

unfoldable pub outgoing_text : ComposeFields → Text
outgoing_text f = f.subject ++ 10 ∷ f.body

unfoldable pub kept_if : SendBlocker → Bool → List SendBlocker
kept_if blocker true = blocker ∷ []
kept_if blocker false = []

-- Why the email cannot go yet, in the order of the checks.
unfoldable pub send_blockers : ComposeFields → DetailValues → List SendBlocker
send_blockers f known =
    kept_if no_recipient (not (any_in f.to))
    ++ (kept_if no_subject (is_blank f.subject)
        ++ (kept_if no_body (is_blank f.body)
            ++ (kept_if missing_details (has_missing_details (outgoing_text f) known)
                ++ (kept_if unfilled_blanks (any_in (find_unfilled_blanks f.body))
                    ++ kept_if redaction_markers
                        (any_in (find_redaction_markers (outgoing_text f)))))))

unfoldable pub blockers : Render → Editor → List SendBlocker
blockers v w = send_blockers (fields v w) (values v)

unfoldable pub is_editable : ComposeState → Bool
is_editable ComposeState.draft = true
is_editable _ = false

unfoldable pub is_counting_down : Editor → Bool
is_counting_down w = is_some w.countdown.seconds_left

unfoldable pub is_locked : Render → Editor → Bool
is_locked v w = not (is_editable v.draft.state) || is_some w.busy || is_counting_down w

-- The warnings of a send, in order, and the number of the check after one.
abbrev pub send_guards : List ConfirmKind
send_guards = send_templates ∷ tone_warning ∷ []

unfoldable pub after_guard : ConfirmKind → ℕ
after_guard send_templates = 1
after_guard tone_warning = 2
after_guard _ = 0

unfoldable pub cancel : Editor → Editor
cancel w = record w { pending = none }

unfoldable pub ask : ConfirmKind → Editor → Editor
ask kind w = record w { pending = some kind }

unfoldable pub set_remind_if_no_reply : Bool → Editor → Editor
set_remind_if_no_reply is_on w = record w { remind_if_no_reply = is_on }

unfoldable pub start_write : Render → Editor → Editor
start_write v w = run_saved ComposeAction.write (write_email (fields v w)) v.kept_failure w

-- Whether the body is the AI's own, as shown.
unfoldable pub is_ai_body : Render → Option Text → Text → Bool
is_ai_body v none body = false
is_ai_body v (some ai) body = text_eq body (shown v ai)

unfoldable pub write : Render → Editor → Editor
write v w =
    if is_locked v w || is_blank (fields v w).brief
    then w
    else if not (is_blank (fields v w).body) && not (is_ai_body v w.ai_body (fields v w).body)
    then ask replace_edits w
    else start_write v w

unfoldable pub refine : Render → Text → Editor → Editor
refine v instruction w =
    if is_locked v w
    then w
    else run_saved ComposeAction.refine (refine_email (fields v w) instruction) v.kept_failure w

-- What the undo window closes over.
unfoldable pub closed_over : Render → Editor → Approved
closed_over v w = record {
  email = record {
    to = (fields v w).to;
    cc = (fields v w).cc;
    subject = (fields v w).subject;
    body = (fields v w).body;
    remind_if_no_reply = w.remind_if_no_reply;
  };
  kept = v.kept_failure;
}

unfoldable pub start_countdown : Approved → Editor → Editor
start_countdown approved w = set_countdown (UndoCountdown.start approved w.countdown) w

unfoldable pub undo_send : Editor → Editor
undo_send w = set_countdown (UndoCountdown.undo w.countdown) w

unfoldable pub second_passed : Editor → Editor
second_passed w = set_countdown (UndoCountdown.second_passed w.countdown) w

-- Leaving sends what waits, and then saves what was typed.
unfoldable pub leave : Editor → Editor
leave w = save_now (set_countdown (UndoCountdown.send_now w.countdown) w)

unfoldable pub settle : Render → SettleOutcome → Editor → Editor
settle v outcome w = run_now ComposeAction.settle (settle_outcome outcome) v.kept_failure w

unfoldable pub remove : Render → Editor → Editor
remove v w = run_now ComposeAction.delete delete_email v.kept_failure (clear_timer w)

-- `keptFailure`: the kept failure that this editor has not acted on since.
unfoldable pub same_failure : Option ComposeSendFailure → ComposeSendFailure → Bool
same_failure none kept = false
same_failure (some answered) kept = answered.number == kept.number

module _ (has_tone_issues : Text → Bool) where
  unfoldable pub is_triggered : Text → ConfirmKind → Bool
  is_triggered text send_templates = any_in (find_template_placeholders text)
  is_triggered text tone_warning = has_tone_issues text
  is_triggered text _ = false

  unfoldable pub next_question : Text → ℕ → Option ConfirmKind
  next_question text from = find (is_triggered text) (drop from send_guards)

  -- `continueSend`; `seen` is the state that the render saw.
  unfoldable pub continue_send : Render → ℕ → Editor → Editor → Editor
  continue_send v from seen w = elim (next_question (outgoing_text (fields v seen)) from) [
    | some kind ↦ ask kind w
    | none ↦ start_countdown (closed_over v seen) (save_now w)
  ]

  unfoldable pub send : Render → Editor → Editor
  send v w = if is_locked v w || any_in (blockers v w) then w else continue_send v 0 w (cancel w)

  unfoldable pub act_on : Render → ConfirmKind → Editor → Editor → Editor
  act_on v replace_edits seen w = start_write v w
  act_on v kind seen w = continue_send v (after_guard kind) seen w

  unfoldable pub confirm_pending : Render → Option ConfirmKind → Editor → Editor
  confirm_pending v none w = cancel w
  confirm_pending v (some kind) w = if is_locked v w then cancel w else act_on v kind w (cancel w)

  unfoldable pub confirm : Render → Editor → Editor
  confirm v w = confirm_pending v w.pending w

  -- A warning about text that is no longer there is moot.
  unfoldable pub is_moot : Text → Option ConfirmKind → Bool
  is_moot text (some send_templates) = not (is_triggered text send_templates)
  is_moot text (some tone_warning) = not (is_triggered text tone_warning)
  is_moot text _ = false

  unfoldable pub type : String → FieldValue → Editor → Editor
  type key value w = record w {
    edits = put key value w.edits;
    unsaved = put key value w.unsaved;
    is_timer_set = true;
  }

  unfoldable pub drop_question : Bool → Editor → Editor
  drop_question true w = cancel w
  drop_question false w = w

  unfoldable pub set_field : Render → String → FieldValue → Editor → Editor
  set_field v key value w =
      if is_locked v w
      then w
      else drop_question (is_moot (outgoing_text (fields_with v (put key value w.edits))) w.pending)
          (type key value w)

-- The failure on screen.
unfoldable pub kept_failure :
    Option ComposeSendFailure → Option ComposeSendFailure → ComposeState → Option ComposeFailure
kept_failure none answered state = none
kept_failure (some kept) answered state =
    if same_failure answered kept || not (is_editable state)
    then none
    else some (record { action = ComposeAction.send; error = kept.error })

unfoldable pub failure_or : Option ComposeFailure → Option ComposeFailure → Option ComposeFailure
failure_or (some f) kept = some f
failure_or none kept = kept

unfoldable pub shown_failure : Render → Editor → Option ComposeFailure
shown_failure v w =
    failure_or w.failure (kept_failure v.kept_failure w.answered_failure v.draft.state)
