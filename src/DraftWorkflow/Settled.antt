-- ===== src/DraftWorkflow/Settled.antt =====
-- lib/useDraftWorkflow.ts: each send that is approved, from the press of Send to its request.
use aimail.Base.{
  ◌-◌, false, ◌≡◌, refl, sym, ap, ◌∙◌, Option, none, some, List, [], ◌∷◌, ◌++◌, String, append-nil,
  inl, inr, Bool-cases, ltb,
}
use aimail.DraftWorkflow.Types.{Render, Workflow, Platform, PendingSend, DraftAction}
use aimail.DraftWorkflow.Requests.{start_send, start_request}
use aimail.DraftWorkflow.Countdown.{
  clear_countdown, make_send, send_now_if_counting, begin_undo_countdown, tick_interval, tick,
  undo_send,
}
use aimail.DraftWorkflow.View.{email_id, draft, is_draft_locked}
use aimail.DraftWorkflow.Actions.{no_question, send, confirm, closed_over}
use aimail.DraftWorkflow.Events.{
  Event, step, run_frame, typed, inserted, regenerated, refined, templated, reminded, scheduled,
  schedule_cancelled, sent, undone, confirmed, question_cancelled, suggestion_taken, left, ticked,
  answered, rejected, framed,
}
use aimail.DraftWorkflow.Window.{IsValid, closed, counting, send_now_if_counting-closed}
use aimail.DraftWorkflow.Cases.{send_ways, confirm_ways}
use aimail.DraftWorkflow.Keeps.{
  Keeps, Keeps-refl, sends_of, send_of, start_request-sends_of, regenerate-Keeps, refine-Keeps,
  draft_from_template-Keeps, set_draft-Keeps, insert_text-Keeps, set_remind_if_no_reply-Keeps,
  cancel_schedule-Keeps, request_done-Keeps, request_failed-Keeps, no_question-Keeps, ask-Keeps,
  schedule_request-Keeps, start_regenerate-Keeps, schedule-Keeps, send_at_suggestion-Keeps,
}
use aimail.DraftWorkflow.Approvals.{step-IsValid}

abbrev pub waiting_send : Option PendingSend → List PendingSend
waiting_send none = []
waiting_send (some p) = p ∷ []

-- The sends that were requested, in order, and the one that waits in the undo window.
unfoldable pub approved_sends : Workflow → List PendingSend
approved_sends w = sends_of w.issued ++ waiting_send w.pending_send

-- What a press of Send, or of "Send anyway", leaves of them: all stand, and the window with them; or
-- the draft on screen is behind them, and it is what waits.
pub data Approves (v : Render) (w u : Workflow) : Type 0 where
  nothing : u.pending_send ≡ w.pending_send → approved_sends u ≡ approved_sends w → Approves v w u
  one :
      (p : PendingSend)
      → email_id v ≡ some p.email_id
      → p.text ≡ draft v w
      → is_draft_locked v w ≡ false
      → u.pending_send ≡ some p
      → approved_sends u ≡ approved_sends w ++ p ∷ []
      → Approves v w u

-- What an event leaves of them: an Undo takes the one that waits, and no other event but these three
-- changes them.
unfoldable pub Settles : Render → Event → Workflow → Workflow → Type 0
Settles v sent w u = Approves v w u
Settles v confirmed w u = Approves v w u
Settles v undone w u = approved_sends w ≡ approved_sends u ++ waiting_send w.pending_send
Settles v _ w u = approved_sends u ≡ approved_sends w

Keeps-approved_sends : (w u : Workflow) → Keeps w u → approved_sends u ≡ approved_sends w
unfolding approved_sends
Keeps-approved_sends w u (same, count, listed) =
    let (i, p, n, id) = same in
    ap (λ sends. sends ++ waiting_send u.pending_send) listed
    ∙ ap (λ o. sends_of w.issued ++ waiting_send o) p

Keeps-Approves : (v : Render) (w u : Workflow) → Keeps w u → Approves v w u
Keeps-Approves v w u k =
    let (same, count, listed) = k in
    let (i, p, n, id) = same in nothing p (Keeps-approved_sends w u k)

make_send-sends_of :
    (o : Option PendingSend) (w : Workflow)
    → sends_of (make_send o w).issued ≡ sends_of w.issued ++ waiting_send o
unfolding make_send start_send send_of
make_send-sends_of none w = sym (append-nil (sends_of w.issued))
make_send-sends_of (some p) w = start_request-sends_of _ _ _ w

send_now_if_counting-sends_of :
    (w : Workflow) → sends_of (send_now_if_counting w).issued ≡ approved_sends w
unfolding approved_sends send_now_if_counting clear_countdown
send_now_if_counting-sends_of w = make_send-sends_of w.pending_send (clear_countdown w)

-- Leaving the email requests the send that waits.
send_now_if_counting-settled :
    (w : Workflow) → approved_sends (send_now_if_counting w) ≡ approved_sends w
unfolding approved_sends
send_now_if_counting-settled w =
    let (i, p, n) = send_now_if_counting-closed w in
    ap (λ o. sends_of (send_now_if_counting w).issued ++ waiting_send o) p
    ∙ append-nil _
    ∙ send_now_if_counting-sends_of w

-- A new undo window requests the send that still waits in the last one, and waits behind it.
begin_undo_countdown-settled :
    (p : PendingSend) (w : Workflow)
    → approved_sends (begin_undo_countdown p w) ≡ approved_sends w ++ p ∷ []
unfolding approved_sends begin_undo_countdown
begin_undo_countdown-settled p w = ap (λ sends. sends ++ p ∷ []) (send_now_if_counting-sends_of w)

start_send-settled :
    (p : PendingSend) (w : Workflow)
    → w.pending_send ≡ none
    → approved_sends (start_send p w) ≡ sends_of w.issued ++ p ∷ []
unfolding approved_sends send_of
start_send-settled p w e =
    ap (λ o. sends_of (start_send p w).issued ++ waiting_send o) (waits ∙ e) ∙ append-nil _ ∙ issues
  where
    waits : (start_send p w).pending_send ≡ w.pending_send
    waits = unfold start_send in unfold start_request in refl

    issues : sends_of (start_send p w).issued ≡ sends_of w.issued ++ p ∷ []
    issues = unfold start_send in start_request-sends_of _ _ _ w

tick-settled : (w : Workflow) → IsValid w → approved_sends (tick w) ≡ approved_sends w
unfolding tick tick_interval approved_sends
tick-settled w (closed a b c) = rw (tick, a) refl
tick-settled w (counting p n a b c d low high) = elim (Bool-cases (ltb 0 (n - 1))) [
  | inl more ↦ rw (tick, a, tick_interval, more) refl
  | inr last ↦ rw (tick, a, tick_interval, last, b) (start_send-settled p _ refl)
]

undo_send-settled :
    (w : Workflow) → approved_sends w ≡ approved_sends (undo_send w) ++ waiting_send w.pending_send
unfolding approved_sends undo_send clear_countdown
undo_send-settled w =
    ap (λ sends. sends ++ waiting_send w.pending_send) (sym (append-nil (sends_of w.issued)))

run_frame-settled :
    (frames : List DraftAction) (w : Workflow)
    → approved_sends (run_frame frames w) ≡ approved_sends w
unfolding run_frame approved_sends
run_frame-settled [] w = refl
run_frame-settled (text ∷ frames) w = refl

module _ (platform : Platform) (v : Render) (w : Workflow) where
  kept : (u : Workflow) → Keeps w u → Approves v w u
  kept u k = Keeps-Approves v w u k

  begun :
      (id : String)
      → email_id v ≡ some id
      → is_draft_locked v w ≡ false
      → Approves v w (begin_undo_countdown (closed_over v id w) (no_question w))
  unfolding begin_undo_countdown closed_over no_question approved_sends
  begun id e free = one _ e refl free refl (begin_undo_countdown-settled _ (no_question w))

  send-Approves : Approves v w (send platform v w)
  send-Approves =
      send_ways (Approves v w) platform v w (kept w (Keeps-refl w)) (kept _ (no_question-Keeps w))
        (λ id action. kept _ (ask-Keeps id action w))
        (λ id at. kept _ (schedule_request-Keeps id _ at w))
        (λ id next. kept _ (start_regenerate-Keeps id next w)) (λ id e free. begun id e free)

  confirm-Approves : Approves v w (confirm platform v w)
  confirm-Approves =
      confirm_ways (Approves v w) platform v w (kept w (Keeps-refl w))
        (kept _ (no_question-Keeps w)) (λ id action. kept _ (ask-Keeps id action w))
        (λ id at. kept _ (schedule_request-Keeps id _ at w))
        (λ id next. kept _ (start_regenerate-Keeps id next w)) (λ id e free. begun id e free)

  same : (u : Workflow) → Keeps w u → approved_sends u ≡ approved_sends w
  same u k = Keeps-approved_sends w u k

  step-Settles : (e : Event) → IsValid w → Settles v e w (step platform v e w)
  unfolding step Settles
  step-Settles (typed text) valid = same _ (set_draft-Keeps v text w)
  step-Settles (inserted text) valid = same _ (insert_text-Keeps v text w)
  step-Settles (regenerated tone) valid = same _ (regenerate-Keeps v tone w)
  step-Settles (refined instruction) valid = same _ (refine-Keeps v instruction w)
  step-Settles (templated template) valid = same _ (draft_from_template-Keeps v template w)
  step-Settles (reminded is_on) valid = same _ (set_remind_if_no_reply-Keeps v is_on w)
  step-Settles (scheduled at) valid = same _ (schedule-Keeps platform v w at)
  step-Settles schedule_cancelled valid = same _ (cancel_schedule-Keeps v w)
  step-Settles sent valid = send-Approves
  step-Settles undone valid = undo_send-settled w
  step-Settles confirmed valid = confirm-Approves
  step-Settles question_cancelled valid = same _ (no_question-Keeps w)
  step-Settles suggestion_taken valid = same _ (send_at_suggestion-Keeps platform v w)
  step-Settles left valid = send_now_if_counting-settled w
  step-Settles ticked valid = tick-settled w valid
  step-Settles (answered job) valid = same _ (request_done-Keeps job w)
  step-Settles (rejected job error) valid = same _ (request_failed-Keeps job error w)
  step-Settles framed valid = run_frame-settled w.frames w

-- A history in which each event does to the approved sends what it may.
unfoldable pub AllSettle : Platform → List (Render × Event) → Workflow → Type 0
AllSettle platform [] w = Unit
AllSettle platform ((v, e) ∷ history) w =
    Settles v e w (step platform v e w) × AllSettle platform history (step platform v e w)

-- From a state whose undo window is well formed, at every event of any history the sends that were
-- requested, in order, with the one that waits behind them, stay as they are, but for two changes: a
-- press of Send, or of the confirm of a question, may put the draft on screen of an email that is not
-- locked behind them, which then waits; and an Undo takes away the one that waits.
pub run-AllSettle :
    (platform : Platform) (history : List (Render × Event)) (w : Workflow)
    → IsValid w
    → AllSettle platform history w
unfolding AllSettle
run-AllSettle platform [] w valid = tt
run-AllSettle platform ((v, e) ∷ history) w valid = (
  step-Settles platform v w e valid,
  run-AllSettle platform history (step platform v e w) (step-IsValid platform v w valid e),
)
