-- ===== src/ComposeEditor/Tasks.antt =====
-- lib/useComposeDraft.ts: `run`, and the tasks that the actions run.
use aimail.Base.{
  ℕ, zero, suc, ◌+◌, Bool, true, false, Option, none, some, List, [], ◌∷◌, ◌++◌, String, Text,
  length, ◌==◌, filter, not, if◌then◌else◌,
}
use aimail.UndoCountdown.{Countdown}
use aimail.ComposeEditor.Types.{
  Editor, Task, Request, ComposeAction, Approved, ComposeSendFailure, send, write_email,
  refine_email, send_email, settle_outcome, delete_email,
}
use aimail.ComposeEditor.Edits.{Edits, without_keys}
use aimail.ComposeEditor.Saving.{save_now, save_done, save_failed}

-- `run` up to the first wait of its task.
unfoldable pub begin : ComposeAction → Option ComposeSendFailure → Editor → Editor
begin action kept w = record w { busy = some action; failure = none; answered_failure = kept }

-- A request is made at once where there is nothing to wait for.
unfoldable pub issued_at : ℕ → Request → List Request
issued_at zero request = request ∷ []
issued_at (suc n) request = []

unfoldable pub add_task : ComposeAction → Request → ℕ → Editor → Editor
add_task action request waits w = record w {
  next_task = w.next_task + 1;
  tasks =
      w.tasks
      ++ record { number = w.next_task; action = action; request = request; waits = waits } ∷ [];
  issued = w.issued ++ issued_at waits request;
}

-- A task that makes its request straight away.
unfoldable pub run_now : ComposeAction → Request → Option ComposeSendFailure → Editor → Editor
run_now action request kept w = add_task action request 0 (begin action kept w)

-- A task that starts with `await saveNow()`.
unfoldable pub wait_for_saves : ComposeAction → Request → Editor → Editor
wait_for_saves action request w = add_task action request (length w.queue) w

unfoldable pub run_saved : ComposeAction → Request → Option ComposeSendFailure → Editor → Editor
run_saved action request kept w = wait_for_saves action request (save_now (begin action kept w))

-- `dispatchSend`.
unfoldable pub dispatch_send : Approved → Editor → Editor
dispatch_send approved w = run_saved send (send_email approved.email) approved.kept w

unfoldable pub dispatch_all : List Approved → Editor → Editor
dispatch_all [] w = w
dispatch_all (approved ∷ rest) w = dispatch_all rest (dispatch_send approved w)

-- The countdown calls the send that it was given; its log is emptied into the editor.
unfoldable pub set_countdown : Countdown Approved → Editor → Editor
set_countdown c w = dispatch_all c.made (record w { countdown = record c { made = [] } })

-- One save ended: each task that waited for it waits for one less.
unfoldable pub one_less : Task → Task
one_less task = elim task.waits [ zero ↦ task | suc n ↦ record task { waits = n } ]

unfoldable pub now_issued : Task → List Request
now_issued task = elim task.waits [ zero ↦ [] | suc n ↦ issued_at n task.request ]

unfoldable pub all_one_less : List Task → List Task
all_one_less [] = []
all_one_less (task ∷ tasks) = one_less task ∷ all_one_less tasks

unfoldable pub all_now_issued : List Task → List Request
all_now_issued [] = []
all_now_issued (task ∷ tasks) = now_issued task ++ all_now_issued tasks

unfoldable pub save_ended : Editor → Editor
save_ended w = record w {
  tasks = all_one_less w.tasks;
  issued = w.issued ++ all_now_issued w.tasks;
}

-- The save under way ends, if there is one.
unfoldable pub end_save : Bool → List Edits → Editor → Editor
end_save is_ok [] w = w
end_save true (changes ∷ rest) w = save_ended (save_done changes rest w)
end_save false (changes ∷ rest) w = save_ended (save_failed changes rest w)

-- The announcement is cleared now, and set on the next frame.
unfoldable pub announce : ComposeAction → Editor → Editor
announce action w = record w { announcement = none; frames = w.frames ++ action ∷ [] }

-- What a task does with the answer, a body where the request was for one.
unfoldable pub task_done : Request → Text → Editor → Editor
task_done (write_email fields) body w = record w {
  ai_body = some body;
  edits = without_keys ("subject" ∷ "body" ∷ []) w.edits;
}
task_done (refine_email fields instruction) body w = record w {
  ai_body = some body;
  edits = without_keys ("body" ∷ []) w.edits;
}
task_done (send_email email) body w = w
task_done (settle_outcome outcome) body w = w
task_done delete_email body w = record w { unsaved = []; is_deleted = true }

-- The rest of `run`, once its task is done.
unfoldable pub answered : Task → Text → Editor → Editor
answered task body w = announce task.action (record (task_done task.request body w) { busy = none })

unfoldable pub failed_with : Task → String → Editor → Editor
failed_with task error w = record w {
  failure = some (record { action = task.action; error = error });
  busy = none;
}

-- The task with a number whose request was made.
unfoldable pub is_answerable : ℕ → Task → Bool
is_answerable number task = if task.number == number then task.waits == 0 else false

unfoldable pub without_task : ℕ → List Task → List Task
without_task number tasks = filter (λ task. not (task.number == number)) tasks

unfoldable pub close_task : ℕ → Editor → Editor
close_task number w = record w { tasks = without_task number w.tasks }

unfoldable pub answer_task : Option Task → Text → Editor → Editor
answer_task none body w = w
answer_task (some task) body w = answered task body (close_task task.number w)

unfoldable pub fail_task : Option Task → String → Editor → Editor
fail_task none error w = w
fail_task (some task) error w = failed_with task error (close_task task.number w)
