-- ===== src/ComposeEditor/Stages.antt =====
-- lib/useComposeDraft.ts, `saveNow`: the parts of the editor that saving is about, event by event.
use aimail.Base.{
  Bool, true, false, Option, none, some, List, [], ◌∷◌, ◌++◌, Text, String, string_eq,
  if◌then◌else◌, ◌≡◌, refl, ap, ◌∙◌, sym,
}
use aimail.DraftWorkflow.Types.{ConfirmKind}
use aimail.ComposeEditor.Edits.{Edits}
use aimail.Base.{subst}
use aimail.Base.Maps.{put}
use aimail.ComposeEditor.Edits.{FieldValue, spread, has_changes}
use aimail.ComposeEditor.Types.{Editor, Render, saving}
use aimail.ComposeEditor.Saving.{save_now, save_done, save_failed}
use aimail.ComposeEditor.Tasks
use aimail.ComposeEditor.Tasks.{end_save}
use aimail.ComposeEditor.Actions.{
  is_locked, is_counting_down, set_field, type, drop_question, is_moot, outgoing_text, fields_with,
}
use aimail.ComposeEditor.Events.{EditorEvent, typed, autosave, save_ended, autosaved}

-- A value is typed and its save starts; another is typed over it and its save queues; the first save
-- fails and the second succeeds.
abbrev pub failed_first : Render → String → FieldValue → FieldValue → List (Render × EditorEvent)
failed_first v key old new =
    (v, typed key old)
    ∷ (v, autosave)
    ∷ (v, typed key new)
    ∷ (v, autosave)
    ∷ (v, save_ended false)
    ∷ (v, save_ended true)
    ∷ []

-- Then something is typed in another field, and saved.
abbrev pub typed_over :
    Render → String → FieldValue → FieldValue → String → FieldValue → List (Render × EditorEvent)
typed_over v key old new other value =
    failed_first v key old new ++ (v, typed other value) ∷ (v, autosave) ∷ (v, save_ended true) ∷ []

timer_saves :
    (changes : Edits) (w : Editor)
    → w.is_timer_set ≡ true
    → w.unsaved ≡ changes
    → has_changes changes ≡ true
    → autosaved w.is_timer_set w ≡ record w {
      is_timer_set = false;
      unsaved = [];
      save_status = saving;
      queue = w.queue ++ w.unsaved ∷ [];
    }
unfolding autosaved save_now has_changes
timer_saves changes w set e some_there =
    ap (λ b. autosaved b w) set ∙ at_once (ap has_changes e ∙ some_there)
  where
    saved_now : Editor
    saved_now = record w {
      is_timer_set = false;
      unsaved = [];
      save_status = saving;
      queue = w.queue ++ w.unsaved ∷ [];
    }

    at_once : has_changes w.unsaved ≡ true → autosaved true w ≡ saved_now
    at_once there = rw there refl

-- The parts of a state that saving is about, on an email that may be changed and asks nothing.
pub record Stage (v : Render) (edits unsaved : Edits) (queue made : List Edits) (timer : Bool)
    (w : Editor) : Type 0 where
  pub on_screen : w.edits ≡ edits
  pub to_save : w.unsaved ≡ unsaved
  pub queued : w.queue ≡ queue
  pub saves : w.saves_made ≡ made
  pub timed : w.is_timer_set ≡ timer
  pub free : is_locked v w ≡ false
  pub quiet : w.pending ≡ none

module _ (has_tone_issues : Text → Bool) (v : Render) where
  not_moot :
      (text : Text) (o : Option ConfirmKind) → o ≡ none → is_moot has_tone_issues text o ≡ false
  unfolding is_moot
  not_moot text none e = refl
  not_moot text (some kind) e = cc

  pub typed-Stage :
      (key : String) (value : FieldValue) (edits unsaved after : Edits) (queue made : List Edits)
      (timer : Bool) (w : Editor)
      → put key value unsaved ≡ after
      → Stage v edits unsaved queue made timer w
      → Stage v
          (put key value edits)
          after
          queue
          made
          true
          (set_field has_tone_issues v key value w)
  unfolding set_field drop_question type is_locked is_counting_down
  typed-Stage key value edits unsaved after queue made timer w e s =
      rw
        (s.free, not_moot (outgoing_text (fields_with v (put key value w.edits))) w.pending s.quiet)
        (record {
          on_screen = ap (put key value) s.on_screen;
          to_save = ap (put key value) s.to_save ∙ e;
          queued = s.queued;
          saves = s.saves;
          timed = refl;
          free = s.free;
          quiet = s.quiet;
        })

  pub autosave-Stage :
      (edits : Edits) (change : String × FieldValue) (unsaved : Edits) (queue made : List Edits)
      (w : Editor)
      → Stage v edits (change ∷ unsaved) queue made true w
      → Stage v edits [] (queue ++ (change ∷ unsaved) ∷ []) made false (autosaved w.is_timer_set w)
  unfolding is_locked is_counting_down has_changes
  autosave-Stage edits change unsaved queue made w s =
      subst (Stage v edits [] (queue ++ (change ∷ unsaved) ∷ []) made false) (sym is_saved)
        (record {
          on_screen = s.on_screen;
          to_save = refl;
          queued = cc (s.queued, s.to_save);
          saves = s.saves;
          timed = refl;
          free = s.free;
          quiet = s.quiet;
        })
    where
      after : Editor
      after = record w {
        is_timer_set = false;
        unsaved = [];
        save_status = saving;
        queue = w.queue ++ w.unsaved ∷ [];
      }

      is_saved : autosaved w.is_timer_set w ≡ after
      is_saved = timer_saves (change ∷ unsaved) w s.timed s.to_save refl

  pub end_save-Stage :
      (is_ok : Bool) (edits unsaved change : Edits) (queue made : List Edits) (timer : Bool)
      (w : Editor)
      → Stage v edits unsaved (change ∷ queue) made timer w
      → Stage v edits
          (if is_ok then unsaved else spread change unsaved)
          queue
          (if is_ok then made ++ change ∷ [] else made)
          timer
          (end_save is_ok w.queue w)
  unfolding end_save Tasks.save_ended save_done save_failed is_locked is_counting_down
  end_save-Stage true edits unsaved change queue made timer w s =
      subst (λ q. Stage v edits unsaved queue (made ++ change ∷ []) timer (end_save true q w))
        (sym s.queued)
        (record {
          on_screen = s.on_screen;
          to_save = s.to_save;
          queued = refl;
          saves = ap (λ m. m ++ change ∷ []) s.saves;
          timed = s.timed;
          free = s.free;
          quiet = s.quiet;
        })
  end_save-Stage false edits unsaved change queue made timer w s =
      subst (λ q. Stage v edits (spread change unsaved) queue made timer (end_save false q w))
        (sym s.queued)
        (record {
          on_screen = s.on_screen;
          to_save = ap (spread change) s.to_save;
          queued = refl;
          saves = s.saves;
          timed = s.timed;
          free = s.free;
          quiet = s.quiet;
        })
