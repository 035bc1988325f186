-- ===== src/ComposeEditor/StaleSave.antt =====
-- lib/useComposeDraft.ts, `saveNow`: a save that fails with a later one behind it.
use aimail.Base.{
  Bool, true, false, none, some, List, [], ◌∷◌, ◌++◌, Text, String, string_eq, eq_iff, ◌≡◌, ◌≢◌,
  refl, ap, ◌∙◌, arith,
}
use aimail.ComposeEditor.Edits.{Edits}
use aimail.Base.Maps.{get, put, get-put}
use aimail.ComposeEditor.Edits.{FieldValue, spread, last_value, or_value, last_value-append}
use aimail.ComposeEditor.Types.{Editor, Render, saved}
use aimail.ComposeEditor.Tasks
use aimail.ComposeEditor.Tasks.{end_save}
use aimail.ComposeEditor.Saving.{save_done}
use aimail.ComposeEditor.Actions.{is_locked}
use aimail.ComposeEditor.Events.{editor_step, run_editor, typed, autosave}
use aimail.ComposeEditor.Stages.{
  typed_over, failed_first, Stage, typed-Stage, autosave-Stage, end_save-Stage,
}

put_other :
    (key other : String) (old value : FieldValue)
    → key ≢ other
    → put other value ((key, old) ∷ []) ≡ (key, old) ∷ (other, value) ∷ []
unfolding put
put_other key other old value differ = ground (arith, eq_iff key other)

put_first : (key : String) (value : FieldValue) → put key value [] ≡ (key, value) ∷ []
unfolding put
put_first key value = refl

put_again : (key : String) (old new : FieldValue) → put key new ((key, old) ∷ []) ≡ (key, new) ∷ []
unfolding put
put_again key old new = ground (arith, eq_iff key key)

shown_last :
    (key other : String) (new value : FieldValue) (edits : Edits)
    → key ≢ other
    → get key (put other value (put key new edits)) ≡ some new
shown_last key other new value edits differ = ground (
  arith,
  get-put other key value (put key new edits),
  get-put key key new edits,
  eq_iff other key,
  eq_iff key key,
)

told_last :
    (key other : String) (old value : FieldValue) (made : List Edits)
    → last_value key (made ++ ((key, old) ∷ (other, value) ∷ []) ∷ []) ≡ some old
unfolding last_value or_value get
told_last key other old value made =
    last_value-append key made (((key, old) ∷ (other, value) ∷ []) ∷ [])
    ∙ ground (arith, eq_iff key key)

ended_saved :
    {changes : Edits} {rest : List Edits}
    → (w : Editor) → w.queue ≡ changes ∷ rest
    → (end_save true w.queue w).save_status ≡ saved
unfolding end_save save_done Tasks.save_ended
ended_saved w queued = ap (λ q. (end_save true q w).save_status) queued

-- In an unlocked editor with no question open and nothing unsaved: a value is typed and its save starts,
-- another is typed over it and its save queues, and the first save fails while the second succeeds.
-- Then the older value alone is still to be saved. When something is then typed in another field and
-- saved too, the last that the service is given of the first field is its older value, while the newer
-- one is on screen, nothing is unsaved or being saved, and the status is "saved".
pub older_saved_last :
    (has_tone_issues : Text → Bool) (v : Render) (w : Editor) (key other : String)
    (old new value : FieldValue)
    → is_locked v w ≡ false
    → w.pending ≡ none
    → w.unsaved ≡ []
    → w.queue ≡ []
    → key ≢ other
    → let u = run_editor has_tone_issues (typed_over v key old new other value) w in
      ((run_editor has_tone_issues (failed_first v key old new) w).unsaved ≡ (key, old) ∷ [])
      × (get key u.edits ≡ some new)
      × (last_value key u.saves_made ≡ some old)
      × (u.unsaved ≡ [])
      × (u.queue ≡ [])
      × (u.save_status ≡ saved)
unfolding run_editor editor_step spread put
older_saved_last has_tone_issues v w key other old new value free quiet clean idle differ =
    let s0 : Stage v w.edits [] [] w.saves_made w.is_timer_set w = record {
      on_screen = refl;
      to_save = clean;
      queued = idle;
      saves = refl;
      timed = refl;
      free = free;
      quiet = quiet;
    } in
    let s1 =
      typed-Stage has_tone_issues v key old _ _ ((key, old) ∷ []) _ _ _ w (put_first key old) s0 in
    let s2 = autosave-Stage has_tone_issues v _ (key, old) [] [] _ _ s1 in
    let s3 =
      typed-Stage has_tone_issues v key new _ _ ((key, new) ∷ []) _ _ _ _ (put_first key new) s2 in
    let s4 = autosave-Stage has_tone_issues v _ (key, new) [] _ _ _ s3 in
    let s5 = end_save-Stage has_tone_issues v false _ _ ((key, old) ∷ []) _ _ _ _ s4 in
    let s6 = end_save-Stage has_tone_issues v true _ _ ((key, new) ∷ []) _ _ _ _ s5 in
    let s7 =
      typed-Stage has_tone_issues v other value _ _ ((key, old) ∷ (other, value) ∷ []) _ _ _ _
        (put_other key other old value differ) s6 in
    let s8 = autosave-Stage has_tone_issues v _ (key, old) ((other, value) ∷ []) _ _ _ s7 in
    let s9 =
      end_save-Stage has_tone_issues v true _ _ ((key, old) ∷ (other, value) ∷ []) _ _ _ _ s8 in
    let w8 : Editor =
      run_editor has_tone_issues
        (failed_first v key old new ++ (v, typed other value) ∷ (v, autosave) ∷ []) w in
    (
      s6.to_save,
      ap (get key) s9.on_screen ∙ shown_last key other new value (put key old w.edits) differ,
      ap (last_value key) s9.saves ∙ told_last key other old value _,
      s9.to_save,
      s9.queued,
      ended_saved w8 s8.queued,
    )
