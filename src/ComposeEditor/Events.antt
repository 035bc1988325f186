-- ===== src/ComposeEditor/Events.antt =====
-- lib/useComposeDraft.ts: what can happen to the editor, in any order.
use aimail.Base.{ℕ, Bool, true, false, some, List, [], ◌∷◌, Text, String, find}
use aimail.ComposeEditor.Edits.{FieldValue}
use aimail.ComposeEditor.Types.{Editor, Render, ComposeAction, SettleOutcome}
use aimail.ComposeEditor.Saving.{save_now}
use aimail.ComposeEditor.Tasks.{end_save, is_answerable, answer_task, fail_task}
use aimail.ComposeEditor.Actions

-- The user's events, the clock's, and the service's: a save ends, and a request is answered, with
-- the body that the answer carries, or fails.
pub data EditorEvent : Type 0 where
  typed : String → FieldValue → EditorEvent
  wrote sent confirmed cancelled undone removed left : EditorEvent
  refined : Text → EditorEvent
  reminded : Bool → EditorEvent
  settled : SettleOutcome → EditorEvent
  autosave second frame : EditorEvent
  save_ended : Bool → EditorEvent
  answer : ℕ → Text → EditorEvent
  failure : ℕ → String → EditorEvent

-- The autosave's timer fires, if it is set.
unfoldable pub autosaved : Bool → Editor → Editor
autosaved true w = save_now w
autosaved false w = w

unfoldable pub next_frame : List ComposeAction → Editor → Editor
next_frame [] w = w
next_frame (text ∷ frames) w = record w { announcement = some text; frames = frames }

module _ (has_tone_issues : Text → Bool) where
  unfoldable pub editor_step : Render → EditorEvent → Editor → Editor
  editor_step v (typed key value) w = Actions.set_field has_tone_issues v key value w
  editor_step v wrote w = Actions.write v w
  editor_step v sent w = Actions.send has_tone_issues v w
  editor_step v confirmed w = Actions.confirm has_tone_issues v w
  editor_step v cancelled w = Actions.cancel w
  editor_step v undone w = Actions.undo_send w
  editor_step v removed w = Actions.remove v w
  editor_step v left w = Actions.leave w
  editor_step v (refined instruction) w = Actions.refine v instruction w
  editor_step v (reminded is_on) w = Actions.set_remind_if_no_reply is_on w
  editor_step v (settled outcome) w = Actions.settle v outcome w
  editor_step v autosave w = autosaved w.is_timer_set w
  editor_step v second w = Actions.second_passed w
  editor_step v frame w = next_frame w.frames w
  editor_step v (save_ended is_ok) w = end_save is_ok w.queue w
  editor_step v (answer number body) w = answer_task (find (is_answerable number) w.tasks) body w
  editor_step v (failure number error) w = fail_task (find (is_answerable number) w.tasks) error w

  unfoldable pub run_editor : List (Render × EditorEvent) → Editor → Editor
  run_editor [] w = w
  run_editor ((v, e) ∷ history) w = run_editor history (editor_step v e w)
