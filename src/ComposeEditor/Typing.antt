-- ===== src/ComposeEditor/Typing.antt =====
-- lib/useComposeDraft.ts: what the user types reaches the service, or is still to be saved.
use aimail.Base.{
  ℕ, Bool, true, false, ◌||◌, Option, none, some, List, [], ◌∷◌, Text, String, string_eq, length,
  ◌≡◌, refl, ap, inl, inr, Bool-cases, arith,
}
use aimail.DraftWorkflow.Types.{
  ConfirmKind, replace_edits, send_markers, send_templates, tone_warning, quiet_hours,
}
use aimail.ComposeEditor.Edits.{Edits, FieldValue}
use aimail.ComposeEditor.Types.{Editor, Render}
use aimail.ComposeEditor.Saving.{save_now}
use aimail.ComposeEditor.Tasks.{end_save}
use aimail.ComposeEditor.Actions.{
  cancel, ask, closed_over, start_countdown, undo_send, second_passed, settle, continue_send, send,
  act_on, confirm_pending, confirm, drop_question, set_field, is_locked, fields, any_in, blockers,
  next_question, outgoing_text,
}
use aimail.ComposeEditor.Events.{
  EditorEvent, typed, wrote, sent, confirmed, cancelled, undone, removed, left, refined, reminded,
  settled, autosave, second, frame, save_ended, answer, failure, editor_step, run_editor,
}
use aimail.ComposeEditor.Follows.{
  Follows, Follows-refl, Follows-trans, Follows-if, save_now-Follows, run_now-Follows,
  set_countdown-Follows, save_done-Follows, save_failed-Follows,
}
use aimail.ComposeEditor.Handlers.{
  plain-Follows, start_write-Follows, write-Follows, refine-Follows, leave-Follows, remind-Follows,
  next_frame-Follows, fail_task-Follows, remove-Follows, autosaved-Follows,
}
use aimail.ComposeEditor.Kept.{IsKept, IsOrderly, Follows-IsKept, answer_task-IsKept, type-IsKept}

module _ (has_tone_issues : Text → Bool) where
  continue_send-Follows :
      (v : Render) (from : ℕ) (seen w : Editor)
      → Follows w (continue_send has_tone_issues v from seen w)
  unfolding continue_send ask start_countdown
  continue_send-Follows v from seen w =
      goes_on (next_question has_tone_issues (outgoing_text (fields v seen)) from)
    where
      goes_on :
          (o : Option ConfirmKind)
          → Follows w (elim o [
            | some kind ↦ ask kind w
            | none ↦ start_countdown (closed_over v seen) (save_now w)
          ])
      goes_on (some kind) = plain-Follows w (some kind)
      goes_on none = Follows-trans _ _ _ (save_now-Follows w) (set_countdown-Follows _ (save_now w))

  send-Follows : (v : Render) (w : Editor) → Follows w (send has_tone_issues v w)
  unfolding send cancel
  send-Follows v w =
      Follows-if w w _ (is_locked v w || any_in (blockers v w)) (Follows-refl w)
        (Follows-trans _ _ _ (plain-Follows w none) (continue_send-Follows v 0 w _))

  act_on-Follows :
      (v : Render) (kind : ConfirmKind) (seen w : Editor)
      → Follows w (act_on has_tone_issues v kind seen w)
  unfolding act_on
  act_on-Follows v replace_edits seen w = start_write-Follows v w
  act_on-Follows v send_markers seen w = continue_send-Follows v _ seen w
  act_on-Follows v send_templates seen w = continue_send-Follows v _ seen w
  act_on-Follows v tone_warning seen w = continue_send-Follows v _ seen w
  act_on-Follows v quiet_hours seen w = continue_send-Follows v _ seen w

  confirm_pending-Follows :
      (v : Render) (kind : Option ConfirmKind) (w : Editor)
      → Follows w (confirm_pending has_tone_issues v kind w)
  unfolding confirm_pending cancel
  confirm_pending-Follows v none w = plain-Follows w none
  confirm_pending-Follows v (some kind) w =
      Follows-if w (cancel w) _ (is_locked v w) (plain-Follows w none)
        (Follows-trans _ _ _ (plain-Follows w none) (act_on-Follows v kind w _))

  drop_question-Follows : (b : Bool) (w : Editor) → Follows w (drop_question has_tone_issues b w)
  unfolding drop_question cancel
  drop_question-Follows true w = plain-Follows w none
  drop_question-Follows false w = Follows-refl w

  set_field-IsKept :
      (v : Render) (key : String) (value : FieldValue) (w : Editor)
      → IsKept w
      → IsKept (set_field has_tone_issues v key value w)
  unfolding set_field
  set_field-IsKept v key value w kept = elim (Bool-cases (is_locked v w)) [
    | inl e ↦ rw e kept
    | inr e ↦ rw e (
        Follows-IsKept _ _ (drop_question-Follows _ _)
          (type-IsKept has_tone_issues key value w kept))
  ]

  end_save-IsKept :
      (is_ok : Bool) (queue : List Edits) (w : Editor)
      → w.queue ≡ queue
      → IsOrderly (save_ended is_ok) w
      → IsKept w
      → IsKept (end_save is_ok queue w)
  unfolding end_save IsOrderly
  end_save-IsKept is_ok [] w e orderly kept = kept
  end_save-IsKept true (changes ∷ rest) w e orderly kept =
      Follows-IsKept w _ (save_done-Follows changes rest w e) kept
  end_save-IsKept false (changes ∷ []) w e orderly kept =
      Follows-IsKept w _ (save_failed-Follows changes w e) kept
  end_save-IsKept false (changes ∷ next ∷ rest) w e orderly kept =
      absurd (omega (arith, orderly, ap (length {A = Edits}) e))

  step-IsKept :
      (v : Render) (e : EditorEvent) (w : Editor)
      → IsOrderly e w
      → IsKept w
      → IsKept (editor_step has_tone_issues v e w)
  unfolding editor_step confirm cancel undo_send second_passed settle
  step-IsKept v (typed key value) w orderly kept = set_field-IsKept v key value w kept
  step-IsKept v wrote w orderly kept = Follows-IsKept w _ (write-Follows v w) kept
  step-IsKept v sent w orderly kept = Follows-IsKept w _ (send-Follows v w) kept
  step-IsKept v confirmed w orderly kept =
      Follows-IsKept w _ (confirm_pending-Follows v w.pending w) kept
  step-IsKept v cancelled w orderly kept = Follows-IsKept w _ (plain-Follows w none) kept
  step-IsKept v undone w orderly kept = Follows-IsKept w _ (set_countdown-Follows _ w) kept
  step-IsKept v removed w orderly kept = Follows-IsKept w _ (remove-Follows v w) kept
  step-IsKept v left w orderly kept = Follows-IsKept w _ (leave-Follows w) kept
  step-IsKept v (refined instruction) w orderly kept =
      Follows-IsKept w _ (refine-Follows v instruction w) kept
  step-IsKept v (reminded is_on) w orderly kept = Follows-IsKept w _ (remind-Follows is_on w) kept
  step-IsKept v (settled outcome) w orderly kept = Follows-IsKept w _ (run_now-Follows _ _ _ w) kept
  step-IsKept v autosave w orderly kept =
      Follows-IsKept w _ (autosaved-Follows w.is_timer_set w) kept
  step-IsKept v second w orderly kept = Follows-IsKept w _ (set_countdown-Follows _ w) kept
  step-IsKept v frame w orderly kept = Follows-IsKept w _ (next_frame-Follows w.frames w) kept
  step-IsKept v (save_ended is_ok) w orderly kept =
      end_save-IsKept is_ok w.queue w refl orderly kept
  step-IsKept v (answer number body) w orderly kept = answer_task-IsKept _ body w kept
  step-IsKept v (failure number error) w orderly kept =
      Follows-IsKept w _ (fail_task-Follows _ error w) kept

  -- Every event of a history is orderly where it happens.
  unfoldable pub AllOrderly : List (Render × EditorEvent) → Editor → Type 0
  AllOrderly [] w = Unit
  AllOrderly ((v, e) ∷ history) w =
      IsOrderly e w × AllOrderly history (editor_step has_tone_issues v e w)

  -- From a state in which every edit on screen was last given to the service, is being saved or is
  -- still to be saved, this holds after any history in which no save fails with a later one behind
  -- it, unless the email is deleted: no key typed is lost.
  pub run_editor-IsKept :
      (history : List (Render × EditorEvent)) (w : Editor)
      → AllOrderly history w
      → IsKept w
      → IsKept (run_editor has_tone_issues history w)
  unfolding AllOrderly run_editor
  run_editor-IsKept [] w orderly kept = kept
  run_editor-IsKept ((v, e) ∷ history) w (now, later) kept =
      run_editor-IsKept history _ later (step-IsKept v e w now kept)
