-- ===== src/DraftWorkflow/Approvals.antt =====
-- lib/useDraftWorkflow.ts: the count of the sends that were requested, and of the one that waits.
use aimail.Base.{
  ℕ, ◌+◌, ◌-◌, ◌≤◌, ◌≡◌, refl, Option, none, some, List, [], ◌∷◌, inl, inr, Bool-cases, arith, ltb,
}
use aimail.DraftWorkflow.Types.{Render, Workflow, Platform, PendingSend, DraftAction}
use aimail.DraftWorkflow.Requests.{start_request, start_send}
use aimail.DraftWorkflow.Countdown.{
  clear_countdown, make_send, send_now_if_counting, begin_undo_countdown, tick_interval, tick,
  undo_send,
}
use aimail.DraftWorkflow.View.{is_positive}
use aimail.DraftWorkflow.Actions.{no_question, send, confirm}
use aimail.DraftWorkflow.Events.{
  Event, step, run, run_frame, typed, inserted, regenerated, refined, templated, reminded,
  scheduled, schedule_cancelled, sent, undone, confirmed, question_cancelled, suggestion_taken,
  left, ticked, answered, rejected, framed,
}
use aimail.DraftWorkflow.Window.{
  IsValid, closed, counting, SameWindow-IsValid, begin_undo_countdown-IsValid, tick-IsValid,
  send_now_if_counting-closed,
}
use aimail.DraftWorkflow.Cases.{send_ways, confirm_ways}
use aimail.DraftWorkflow.Keeps.{
  Keeps, Keeps-refl, sends, is_send, start_request-sends, regenerate-Keeps, refine-Keeps,
  draft_from_template-Keeps, set_draft-Keeps, insert_text-Keeps, set_remind_if_no_reply-Keeps,
  cancel_schedule-Keeps, request_done-Keeps, request_failed-Keeps, no_question-Keeps, ask-Keeps,
  schedule_request-Keeps, start_regenerate-Keeps, schedule-Keeps, send_at_suggestion-Keeps,
}

abbrev pub waiting : Option PendingSend → ℕ
waiting none = 0
waiting (some p) = 1

-- The sends that were requested, and the one that waits in the undo window.
pub approved : Workflow → ℕ
approved w = sends w.issued + waiting w.pending_send

-- An event approves at most one send.
pub approvals : Event → ℕ
approvals sent = 1
approvals confirmed = 1
approvals _ = 0

-- What an event that may approve one send leaves of the window and of the sends.
record Accounts (one : ℕ) (w u : Workflow) : Type 0 where
  window : IsValid u
  no_more : approved u ≤ approved w + one

Keeps-Accounts : (one : ℕ) (w u : Workflow) → IsValid w → Keeps w u → Accounts one w u
unfolding approved
Keeps-Accounts one w u valid (same, count, listed) =
    let (i, p, n, id) = same in
    record { window = SameWindow-IsValid w u same valid; no_more = rw p (omega (arith, count)) }

make_send-sends :
    (p : Option PendingSend) (w : Workflow)
    → sends (make_send p w).issued ≡ sends w.issued + waiting p
unfolding make_send start_send is_send
make_send-sends none w = omega arith
make_send-sends (some p) w = start_request-sends _ _ _ w

send_now_if_counting-sends : (w : Workflow) → sends (send_now_if_counting w).issued ≡ approved w
unfolding approved send_now_if_counting clear_countdown
send_now_if_counting-sends w = make_send-sends w.pending_send (clear_countdown w)

send_now_if_counting-approved : (w : Workflow) → approved (send_now_if_counting w) ≡ approved w
unfolding approved
send_now_if_counting-approved w =
    rw (send_now_if_counting-closed w).1 (omega (arith, send_now_if_counting-sends w))

send_now_if_counting-Accounts : (w : Workflow) → Accounts 0 w (send_now_if_counting w)
send_now_if_counting-Accounts w =
    let (i, p, n) = send_now_if_counting-closed w in
    record { window = closed i p n; no_more = omega (arith, send_now_if_counting-approved w) }

begin_undo_countdown-approved :
    (p : PendingSend) (w : Workflow) → approved (begin_undo_countdown p w) ≡ approved w + 1
unfolding approved begin_undo_countdown
begin_undo_countdown-approved p w = omega (arith, send_now_if_counting-sends w)

tick-approved : (w : Workflow) → IsValid w → approved (tick w) ≡ approved w
unfolding approved tick tick_interval start_send is_send sends start_request
tick-approved w (closed a b c) = rw (tick, a) refl
tick-approved w (counting p n a b c d low high) = elim (Bool-cases (ltb 0 (n - 1))) [
  | inl more ↦ rw (tick, a, tick_interval, more) refl
  | inr last ↦
      rw (tick, a, tick_interval, last, b) (omega (arith, start_request-sends p.email_id _ _ _))
]

undo_send-Accounts : (w : Workflow) → Accounts 0 w (undo_send w)
unfolding undo_send clear_countdown approved is_positive
undo_send-Accounts w = record { window = closed refl refl refl; no_more = omega arith }

module _ (platform : Platform) (v : Render) (w : Workflow) (valid : IsValid w) where
  kept : (one : ℕ) (u : Workflow) → Keeps w u → Accounts one w u
  kept one u k = Keeps-Accounts one w u valid k

  begun : (p : PendingSend) → Accounts 1 w (begin_undo_countdown p (no_question w))
  unfolding no_question approved
  begun p = record {
    window = begin_undo_countdown-IsValid p _;
    no_more = omega (arith, begin_undo_countdown-approved p (no_question w));
  }

  send-Accounts : Accounts 1 w (send platform v w)
  send-Accounts =
      send_ways (Accounts 1 w) platform v w (kept 1 w (Keeps-refl w))
        (kept 1 _ (no_question-Keeps w)) (λ id action. kept 1 _ (ask-Keeps id action w))
        (λ id at. kept 1 _ (schedule_request-Keeps id _ at w))
        (λ id next. kept 1 _ (start_regenerate-Keeps id next w)) (λ id e free. begun _)

  confirm-Accounts : Accounts 1 w (confirm platform v w)
  confirm-Accounts =
      confirm_ways (Accounts 1 w) platform v w (kept 1 w (Keeps-refl w))
        (kept 1 _ (no_question-Keeps w)) (λ id action. kept 1 _ (ask-Keeps id action w))
        (λ id at. kept 1 _ (schedule_request-Keeps id _ at w))
        (λ id next. kept 1 _ (start_regenerate-Keeps id next w)) (λ id e free. begun _)

  run_frame-Keeps : (frames : List DraftAction) → Keeps w (run_frame frames w)
  unfolding run_frame
  run_frame-Keeps [] = Keeps-refl w
  run_frame-Keeps (text ∷ frames) = Keeps-refl w

  step-Accounts : (e : Event) → Accounts (approvals e) w (step platform v e w)
  unfolding step approvals run_frame
  step-Accounts (typed text) = kept 0 _ (set_draft-Keeps v text w)
  step-Accounts (inserted text) = kept 0 _ (insert_text-Keeps v text w)
  step-Accounts (regenerated tone) = kept 0 _ (regenerate-Keeps v tone w)
  step-Accounts (refined instruction) = kept 0 _ (refine-Keeps v instruction w)
  step-Accounts (templated template) = kept 0 _ (draft_from_template-Keeps v template w)
  step-Accounts (reminded is_on) = kept 0 _ (set_remind_if_no_reply-Keeps v is_on w)
  step-Accounts (scheduled at) = kept 0 _ (schedule-Keeps platform v w at)
  step-Accounts schedule_cancelled = kept 0 _ (cancel_schedule-Keeps v w)
  step-Accounts sent = send-Accounts
  step-Accounts undone = undo_send-Accounts w
  step-Accounts confirmed = confirm-Accounts
  step-Accounts question_cancelled = kept 0 _ (no_question-Keeps w)
  step-Accounts suggestion_taken = kept 0 _ (send_at_suggestion-Keeps platform v w)
  step-Accounts left = send_now_if_counting-Accounts w
  step-Accounts ticked = record {
    window = tick-IsValid w valid;
    no_more = omega (arith, tick-approved w valid);
  }
  step-Accounts (answered job) = kept 0 _ (request_done-Keeps job w)
  step-Accounts (rejected job error) = kept 0 _ (request_failed-Keeps job error w)
  step-Accounts framed = kept 0 _ (run_frame-Keeps w.frames)

pub step-IsValid :
    (platform : Platform) (v : Render) (w : Workflow)
    → IsValid w
    → (e : Event) → IsValid (step platform v e w)
step-IsValid platform v w valid e = (step-Accounts platform v w valid e).window

module _ (platform : Platform) where
  -- The sends that a history approves at most.
  pub all_approvals : List (Render × Event) → ℕ
  all_approvals [] = 0
  all_approvals ((v, e) ∷ history) = approvals e + all_approvals history

  -- From a state in which the interval, the pending send and the countdown on screen agree, they
  -- agree after any history of renders and events.
  run-IsValid :
      (history : List (Render × Event)) (w : Workflow)
      → IsValid w
      → IsValid (run platform history w)
  unfolding run
  run-IsValid [] w valid = valid
  run-IsValid ((v, e) ∷ history) w valid =
      run-IsValid history (step platform v e w) (step-Accounts platform v w valid e).window

  -- From a state whose undo window is well formed, the sends that were requested and the one that
  -- waits are, after any history, no more than before it and the presses of Send and the confirmed
  -- questions in it.
  pub run-approved_le :
      (history : List (Render × Event)) (w : Workflow)
      → IsValid w
      → approved (run platform history w) ≤ approved w + all_approvals history
  unfolding run all_approvals
  run-approved_le [] w valid = omega arith
  run-approved_le ((v, e) ∷ history) w valid =
      let here = step-Accounts platform v w valid e in
      omega (arith, here.no_more, run-approved_le history (step platform v e w) here.window)
