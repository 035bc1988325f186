-- ===== src/DraftWorkflow/Window.antt =====
-- lib/useDraftWorkflow.ts: the undo window. Its interval, its pending send and the countdown on the
-- screen agree at all times, whatever happens.
use aimail.Base.{
  ℕ, ◌-◌, ◌≤◌, ◌<◌, ◌≡◌, refl, Bool, true, false, none, some, String, inl, inr, Bool-cases,
  Option-cases, arith, ltb, ◌∙◌,
}
use aimail.DraftWorkflow.Types.{Workflow, PendingSend, Job, DraftAction, Request, initial}
use aimail.DraftWorkflow.Requests.{
  start_request, start_send, request_done, request_failed, on_done, on_rejected, announce,
}
use aimail.DraftWorkflow.Countdown.{
  clear_countdown, make_send, send_now_if_counting, begin_undo_countdown, tick_interval, tick,
  undo_countdown_seconds,
}
use aimail.DraftWorkflow.View.{is_positive}
use aimail.DraftWorkflow.Actions.{no_question, clear_if}

-- The undo window is closed, and no send waits; or it is open for the email of the send that waits,
-- with one to five seconds left on the interval and on the screen.
pub data IsValid (w : Workflow) : Type 0 where
  closed :
      w.interval ≡ none → w.pending_send ≡ none → is_positive w.undo_countdown ≡ false → IsValid w
  counting :
      (p : PendingSend) (n : ℕ)
      → w.interval ≡ some (record { remaining = n; send = p })
      → w.pending_send ≡ some p
      → w.undo_countdown ≡ some n
      → w.undo_email_id ≡ some p.email_id
      → 0 < n
      → n ≤ undo_countdown_seconds
      → IsValid w

pub initial-IsValid : IsValid initial
unfolding is_positive
initial-IsValid = closed refl refl refl

-- The window stands as it did.
abbrev pub SameWindow : Workflow → Workflow → Type 0
SameWindow w u =
    (u.interval ≡ w.interval)
    × (u.pending_send ≡ w.pending_send)
    × (u.undo_countdown ≡ w.undo_countdown)
    × (u.undo_email_id ≡ w.undo_email_id)

pub SameWindow-IsValid : (w u : Workflow) → SameWindow w u → IsValid w → IsValid u
SameWindow-IsValid w u (i, p, n, id) (closed a b c) = closed (i ∙ a) (p ∙ b) (rw n c)
SameWindow-IsValid w u (i, p, n, id) (counting q m a b c d low high) =
    counting q m (i ∙ a) (p ∙ b) (n ∙ c) (id ∙ d) low high

pub start_request-SameWindow :
    (id : String) (action : DraftAction) (request : Request) (w : Workflow)
    → SameWindow w (start_request id action request w)
unfolding start_request
start_request-SameWindow id action request w = (refl, refl, refl, refl)

pub start_send-SameWindow : (p : PendingSend) (w : Workflow) → SameWindow w (start_send p w)
unfolding start_send
start_send-SameWindow p w = start_request-SameWindow _ _ _ w

pub send_now_if_counting-closed :
    (w : Workflow)
    → ((send_now_if_counting w).interval ≡ none)
      × ((send_now_if_counting w).pending_send ≡ none)
      × (is_positive (send_now_if_counting w).undo_countdown ≡ false)
unfolding send_now_if_counting clear_countdown is_positive make_send start_send start_request
send_now_if_counting-closed w = elim (Option-cases w.pending_send) [
  | inl e ↦ rw (make_send, e) (refl, refl, refl)
  | inr (p, e) ↦ rw (make_send, e) (refl, refl, refl)
]

pub begin_undo_countdown-IsValid :
    (p : PendingSend) (w : Workflow) → IsValid (begin_undo_countdown p w)
unfolding begin_undo_countdown
begin_undo_countdown-IsValid p w =
    counting p undo_countdown_seconds refl refl refl refl (omega arith) (omega arith)

pub tick-IsValid : (w : Workflow) → IsValid w → IsValid (tick w)
unfolding tick tick_interval start_send start_request is_positive
tick-IsValid w (closed a b c) = rw (tick, a) (closed a b c)
tick-IsValid w (counting p n a b c d low high) = elim (Bool-cases (ltb 0 (n - 1))) [
  | inl more ↦
      rw (tick, a, tick_interval, more)
        (counting p (n - 1) refl b refl d (ground arith) (omega arith))
  | inr last ↦ rw (tick, a, tick_interval, last) (closed refl refl refl)
]

request_done-SameWindow : (job : Job) (w : Workflow) → SameWindow w (request_done job w)
unfolding request_done announce on_done
request_done-SameWindow job w = ground arith

request_failed-SameWindow :
    (job : Job) (error : String) (w : Workflow) → SameWindow w (request_failed job error w)
unfolding request_failed on_rejected
request_failed-SameWindow job error w = ground arith

clear_if-SameWindow : (b : Bool) (w : Workflow) → SameWindow w (clear_if b w)
unfolding clear_if no_question
clear_if-SameWindow true w = (refl, refl, refl, refl)
clear_if-SameWindow false w = (refl, refl, refl, refl)
