-- ===== src/UndoCountdown/Tests.antt =====
-- lib/useUndoCountdown.ts: a window that runs out, and one that is taken back.
use aimail.Base.{ℕ, none, List, [], ◌∷◌, ◌≡◌, refl}
use aimail.UndoCountdown.{
  Countdown, Event, started, undone, second, leave, run_countdown, happen, start, undo, call,
  send_now, second_passed, tick_from,
}
use aimail.UndoCountdown.Laws.{
  approved, without_last, after_event, after_events, run_countdown-approved,
}

abbrev closed : Countdown ℕ
closed = record { seconds_left = none; timer = none; pending_send = none; made = [] }

abbrev history : List (Event ℕ)
history = started 7 ∷ second ∷ undone ∷ started 8 ∷ second ∷ started 9 ∷ leave ∷ []

run_countdown-approved_example :
    approved (run_countdown history closed) ≡ after_events history closed (approved closed)
run_countdown-approved_example = run_countdown-approved history closed

made_once : after_events history closed [] ≡ 8 ∷ 9 ∷ []
unfolding after_events after_event without_last happen start undo call send_now second_passed
    tick_from
made_once = refl
