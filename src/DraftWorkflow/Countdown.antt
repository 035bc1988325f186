-- ===== src/DraftWorkflow/Countdown.antt =====
-- lib/useDraftWorkflow.ts: the undo window between an approved send and its request.
use aimail.Base.{ℕ, ◌-◌, Option, none, some, ltb, if◌then◌else◌}
use aimail.DraftWorkflow.Types.{Workflow, PendingSend, Interval}
use aimail.DraftWorkflow.Requests.{start_send}

-- lib/useUndoCountdown.ts, UNDO_COUNTDOWN_SECONDS.
abbrev pub undo_countdown_seconds : ℕ
undo_countdown_seconds = 5

unfoldable pub clear_countdown : Workflow → Workflow
clear_countdown w = record w {
  interval = none;
  undo_countdown = none;
  undo_email_id = none;
  pending_send = none;
}

-- `pendingSend?.()`.
unfoldable pub make_send : Option PendingSend → Workflow → Workflow
make_send none w = w
make_send (some p) w = start_send p w

-- Leaving in the undo window sends now.
unfoldable pub send_now_if_counting : Workflow → Workflow
send_now_if_counting w = make_send w.pending_send (clear_countdown w)

-- `beginUndoCountdown`, with what the closure of the send holds.
unfoldable pub begin_undo_countdown : PendingSend → Workflow → Workflow
begin_undo_countdown p w = record (send_now_if_counting w) {
  undo_email_id = some p.email_id;
  pending_send = some p;
  undo_countdown = some undo_countdown_seconds;
  interval = some (record { remaining = undo_countdown_seconds; send = p });
}

-- One call of the interval's callback, a second after the last.
unfoldable pub tick_interval : Interval → Workflow → Workflow
tick_interval i w =
    if ltb 0 (i.remaining - 1)
    then record w {
      interval = some (record i { remaining = i.remaining - 1 });
      undo_countdown = some (i.remaining - 1);
    }
    else start_send i.send
        (record w { interval = none; pending_send = none; undo_countdown = some 0 })

unfoldable pub tick : Workflow → Workflow
tick w = elim w.interval [ none ↦ w | some i ↦ tick_interval i w ]

unfoldable pub undo_send : Workflow → Workflow
undo_send w = clear_countdown w
