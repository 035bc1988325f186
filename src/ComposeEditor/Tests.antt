-- ===== src/ComposeEditor/Tests.antt =====
-- lib/useComposeDraft.ts: the theorems at one editor.
use aimail.Base.{
  any, ◌==◌, trim, trim_start, trim_end, true, Bool, false, none, some, List, [], ◌∷◌, Text, codes,
  String, ◌≡◌, refl, ◌||◌, if◌then◌else◌, ◌≢◌, inl, inr, arith, ◌≤◌, length, string_eq,
}
use aimail.Base.Maps.{get, put}
use aimail.Email.{professional}
use aimail.ComposeDraft.{ComposeDraft, ComposeState}
use aimail.DraftWorkflow.Types.{tone_warning, send_templates}
use aimail.ComposeEditor.Edits.{has_changes, addresses, words, last_value}
use aimail.ComposeEditor.Types.{Editor, Render, idle, saved}
use aimail.ComposeEditor.Actions.{
  addresses_or, send, any_in, ask, set_field, drop_question, is_moot, type, is_locked,
  is_counting_down, is_editable, start_countdown, cancel, words_or, shown, is_blank,
}
use aimail.ComposeEditor.Saving.{save_now}
use aimail.ComposeEditor.Events.{
  editor_step, autosaved, EditorEvent, typed, autosave, save_ended, sent, confirmed, run_editor,
}
use aimail.ComposeEditor.Kept.{IsKept, IsOrderly}
use aimail.ComposeEditor.Typing.{AllOrderly, run_editor-IsKept}
use aimail.ComposeEditor.Stages.{typed_over, failed_first}
use aimail.ComposeEditor.StaleSave.{older_saved_last}
use aimail.ComposeEditor.Cleared.{confirm-sends_cleared}
use aimail.Details.Tests.{nothing_missing}
use aimail.DraftGuards.Tests.{no_markers, no_blanks, no_templates}
use aimail.ComposeEditor.Guards.{send-branches, text_of, is_held, is_unfit, on_screen}
use aimail.DraftGuards.{find_template_placeholders}

abbrev notice : ComposeDraft
notice = record {
  id = "c1";
  to = codes "a@b.c" ∷ [];
  cc = [];
  subject = codes "Leave";
  brief = codes "leave";
  body = codes "Please plan.";
  tone = professional;
  state = ComposeState.draft;
  sources = [];
  review_reasons = [];
  critic_confidence = none;
  details = [];
  egress = [];
  generated_at = none;
  sent_at = none;
  updated_at = 10;
}

abbrev view : Render
view = record { draft = notice; is_hiding_details = true; kept_failure = none }

abbrev opened : Editor
opened = record {
  edits = [];
  unsaved = [];
  is_timer_set = false;
  queue = [];
  saves_made = [];
  save_status = idle;
  ai_body = none;
  busy = none;
  failure = none;
  answered_failure = none;
  pending = none;
  remind_if_no_reply = false;
  announcement = none;
  frames = [];
  countdown = record { seconds_left = none; timer = none; pending_send = none; made = [] };
  next_task = 0;
  tasks = [];
  issued = [];
  is_deleted = false;
}

abbrev no_issues : Text → Bool
no_issues t = false

-- A key, the autosave, another key while it runs, and the save fails.
abbrev typing : List (Render × EditorEvent)
typing =
    (view, typed "body" (words (codes "A")))
    ∷ (view, autosave)
    ∷ (view, typed "body" (words (codes "AB")))
    ∷ (view, save_ended false)
    ∷ (view, sent)
    ∷ []

opened-IsKept : IsKept opened
unfolding IsKept get
opened-IsKept = inr λ key. inl refl

one_queued :
    length
      (run_editor no_issues
        ((view, typed "body" (words (codes "A")))
          ∷ (view, autosave)
          ∷ (view, typed "body" (words (codes "AB")))
          ∷ [])
        opened).queue
    ≤ 1
unfolding run_editor editor_step set_field is_locked is_editable autosaved is_counting_down
    drop_question is_moot type save_now has_changes put
one_queued = omega arith

typing-AllOrderly : AllOrderly no_issues typing opened
unfolding AllOrderly IsOrderly run_editor
typing-AllOrderly = (tt, (tt, (tt, (one_queued, (tt, tt)))))

run_editor-IsKept_example : IsKept (run_editor no_issues typing opened)
run_editor-IsKept_example =
    run_editor-IsKept no_issues typing opened typing-AllOrderly opened-IsKept

opened_free : is_locked view opened ≡ false
unfolding is_locked is_counting_down is_editable
opened_free = refl

abbrev typed_twice : List (Render × EditorEvent)
typed_twice =
    typed_over view "body" (words (codes "A")) (words (codes "AB")) "subject" (words (codes "S"))

body≢subject : (key other : String) → key ≡ "body" → other ≡ "subject" → key ≢ other
body≢subject key other is_body is_subject e = cc

older_saved_last_example :
    ((run_editor no_issues
        (failed_first view "body" (words (codes "A")) (words (codes "AB")))
        opened).unsaved
      ≡ ("body", words (codes "A")) ∷ [])
    × (get "body" (run_editor no_issues typed_twice opened).edits ≡ some (words (codes "AB")))
    × (last_value "body" (run_editor no_issues typed_twice opened).saves_made
        ≡ some (words (codes "A")))
    × ((run_editor no_issues typed_twice opened).unsaved ≡ [])
    × ((run_editor no_issues typed_twice opened).queue ≡ [])
    × ((run_editor no_issues typed_twice opened).save_status ≡ saved)
older_saved_last_example =
    older_saved_last no_issues view opened "body" "subject" (words (codes "A")) (words (codes "AB"))
      (words (codes "S")) opened_free refl refl refl (body≢subject "body" "subject" refl refl)

abbrev outgoing : Editor
outgoing = start_countdown (on_screen view opened) (save_now (cancel opened))

send-branches_example :
    (send no_issues view opened ≡ (
      if is_held view opened || is_unfit view opened
      then opened
      else if any_in (find_template_placeholders (text_of view opened))
      then ask send_templates opened
      else if no_issues (text_of view opened)
      then ask tone_warning opened
      else outgoing))
    × (outgoing.countdown.pending_send ≡ some (on_screen view opened))
send-branches_example = send-branches no_issues view opened

-- A tone check that finds a capital P.
abbrev is_sharp : Text → Bool
is_sharp t = any (λ c. c == b'P') t

nothing_unfit : is_unfit view opened ≡ false
unfolding shown words_or addresses_or any_in is_blank trim trim_start trim_end get
nothing_unfit = rw (nothing_missing, no_markers, no_blanks) refl

no_gaps : any_in (find_template_placeholders (text_of view opened)) ≡ false
unfolding shown words_or any_in get
no_gaps = rw no_templates refl

confirm-sends_cleared_example :
    let u = run_editor is_sharp ((view, sent) ∷ (view, typed "to" (addresses [])) ∷ []) opened in
    (u.pending ≡ some tone_warning)
    × (run_editor is_sharp ((view, sent) ∷ []) u ≡ u)
    × ((run_editor is_sharp ((view, confirmed) ∷ []) u).countdown.pending_send
        ≡ some (record {
          email = record {
            to = [];
            cc = [];
            subject = codes "Leave";
            body = codes "Please plan.";
            remind_if_no_reply = false;
          };
          kept = none;
        }))
unfolding words_or get shown addresses_or
confirm-sends_cleared_example =
    confirm-sends_cleared is_sharp view opened opened_free nothing_unfit no_gaps refl
