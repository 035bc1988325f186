-- ===== src/ComposeEditor/Handlers.antt =====
-- lib/useComposeDraft.ts: the handlers tell of every field what was told.
use aimail.Base.{
  Bool, true, false, not, ◌||◌, ◌&&◌, Option, none, some, List, [], ◌∷◌, Text, String, string_eq,
  refl, inr,
}
use aimail.DraftWorkflow.Types.{ConfirmKind, replace_edits}
use aimail.ComposeEditor.Types.{Editor, Render, Task, ComposeAction}
use aimail.ComposeEditor.Saving.{clear_timer}
use aimail.ComposeEditor.Tasks.{failed_with, close_task, fail_task}
use aimail.ComposeEditor.Actions.{
  ask, set_remind_if_no_reply, start_write, write, refine, leave, remove, is_locked, fields,
  is_blank, is_ai_body,
}
use aimail.ComposeEditor.Events.{autosaved, next_frame}
use aimail.ComposeEditor.Follows.{
  told, Follows, Follows-refl, Follows-trans, Follows-if, save_now-Follows, run_now-Follows,
  run_saved-Follows, set_countdown-Follows,
}

pub plain-Follows :
    (w : Editor) (kind : Option ConfirmKind) → Follows w (record w { pending = kind })
unfolding told
plain-Follows w kind = record { shows = λ key. inr refl; tells = λ key. refl; stays = refl }

pub start_write-Follows : (v : Render) (w : Editor) → Follows w (start_write v w)
unfolding start_write
start_write-Follows v w = run_saved-Follows _ _ _ w

pub write-Follows : (v : Render) (w : Editor) → Follows w (write v w)
unfolding write ask
write-Follows v w =
    Follows-if w w _ (is_locked v w || is_blank (fields v w).brief) (Follows-refl w) (
      Follows-if w (ask replace_edits w) (start_write v w)
        (not (is_blank (fields v w).body) && not (is_ai_body v w.ai_body (fields v w).body))
        (plain-Follows w (some replace_edits)) (start_write-Follows v w))

pub refine-Follows :
    (v : Render) (instruction : Text) (w : Editor) → Follows w (refine v instruction w)
unfolding refine
refine-Follows v instruction w = Follows-if w _ _ _ (Follows-refl w) (run_saved-Follows _ _ _ w)

pub leave-Follows : (w : Editor) → Follows w (leave w)
unfolding leave
leave-Follows w = Follows-trans _ _ _ (set_countdown-Follows _ w) (save_now-Follows _)

pub clear_timer-Follows : (w : Editor) → Follows w (clear_timer w)
unfolding clear_timer told
clear_timer-Follows w = record { shows = λ key. inr refl; tells = λ key. refl; stays = refl }

pub remind-Follows : (is_on : Bool) (w : Editor) → Follows w (set_remind_if_no_reply is_on w)
unfolding set_remind_if_no_reply told
remind-Follows is_on w = record { shows = λ key. inr refl; tells = λ key. refl; stays = refl }

pub next_frame-Follows :
    (frames : List ComposeAction) (w : Editor) → Follows w (next_frame frames w)
unfolding next_frame told
next_frame-Follows [] w = Follows-refl w
next_frame-Follows (text ∷ frames) w = record {
  shows = λ key. inr refl;
  tells = λ key. refl;
  stays = refl;
}

pub failed_with-Follows :
    (task : Task) (error : String) (w : Editor)
    → Follows w (failed_with task error (close_task task.number w))
unfolding failed_with close_task told
failed_with-Follows task error w = record {
  shows = λ key. inr refl;
  tells = λ key. refl;
  stays = refl;
}

pub fail_task-Follows :
    (task : Option Task) (error : String) (w : Editor) → Follows w (fail_task task error w)
unfolding fail_task
fail_task-Follows none error w = Follows-refl w
fail_task-Follows (some task) error w = failed_with-Follows task error w

pub remove-Follows : (v : Render) (w : Editor) → Follows w (remove v w)
unfolding remove
remove-Follows v w =
    Follows-trans _ _ _ (clear_timer-Follows w) (run_now-Follows _ _ _ (clear_timer w))

pub autosaved-Follows : (is_set : Bool) (w : Editor) → Follows w (autosaved is_set w)
unfolding autosaved
autosaved-Follows true w = save_now-Follows w
autosaved-Follows false w = Follows-refl w
