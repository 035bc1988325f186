-- ===== src/DraftWorkflow/Events.antt =====
-- lib/useDraftWorkflow.ts: everything that may happen to the hook, as a step function.
use aimail.Base.{ℕ, Bool, List, [], ◌∷◌, Text, String, some}
use aimail.Email.{Tone}
use aimail.DraftWorkflow.Types.{Render, Workflow, Platform, Job, DraftAction}
use aimail.DraftWorkflow.Requests.{request_done, request_failed}
use aimail.DraftWorkflow.Countdown.{send_now_if_counting, undo_send, tick}
use aimail.DraftWorkflow.Actions.{
  regenerate, refine, draft_from_template, set_draft, insert_text, set_remind_if_no_reply,
  cancel_schedule, send, schedule, confirm, send_at_suggestion, no_question,
}

-- The handlers, the interval, the answers of the service, and the next animation frame.
pub data Event : Type 0 where
  typed inserted : Text → Event
  regenerated : Tone → Event
  refined : Text → Event
  templated : String → Event
  reminded : Bool → Event
  scheduled : ℕ → Event
  schedule_cancelled : Event
  sent undone confirmed question_cancelled suggestion_taken left ticked : Event
  answered : Job → Event
  rejected : Job → String → Event
  framed : Event

-- The oldest callback of `requestAnimationFrame`.
unfoldable pub run_frame : List DraftAction → Workflow → Workflow
run_frame [] w = w
run_frame (text ∷ frames) w = record w { announcement = some text; frames = frames }

module _ (platform : Platform) where
  unfoldable pub step : Render → Event → Workflow → Workflow
  step v (typed text) w = set_draft v text w
  step v (inserted text) w = insert_text v text w
  step v (regenerated tone) w = regenerate v tone w
  step v (refined instruction) w = refine v instruction w
  step v (templated template) w = draft_from_template v template w
  step v (reminded is_on) w = set_remind_if_no_reply v is_on w
  step v (scheduled at) w = schedule platform v at w
  step v schedule_cancelled w = cancel_schedule v w
  step v sent w = send platform v w
  step v undone w = undo_send w
  step v confirmed w = confirm platform v w
  step v question_cancelled w = no_question w
  step v suggestion_taken w = send_at_suggestion platform v w
  step v left w = send_now_if_counting w
  step v ticked w = tick w
  step v (answered job) w = request_done job w
  step v (rejected job error) w = request_failed job error w
  step v framed w = run_frame w.frames w

  -- A history: each event with the render that it found.
  unfoldable pub run : List (Render × Event) → Workflow → Workflow
  run [] w = w
  run ((v, e) ∷ history) w = run history (step v e w)
