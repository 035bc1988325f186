-- ===== src/UndoCountdown.antt =====
-- lib/useUndoCountdown.ts: the undo window of a new email. A send is a value, and `made` has the
-- sends that were called, in order.
use aimail.Base.{ℕ, ◌-◌, Option, none, some, List, [], ◌∷◌, ◌++◌, ltb, if◌then◌else◌}
use aimail.DraftWorkflow.Countdown.{undo_countdown_seconds}
pub mod Laws
pub mod Tests

pub record Countdown (A : Type 0) : Type 0 where
  pub seconds_left : Option ℕ
  pub timer : Option ℕ
  pub pending_send : Option A
  pub made : List A

-- What happens to the hook: `leave` is its unmounting, which sends at once.
pub data Event (A : Type 0) : Type 0 where
  started : A → Event A
  undone second leave : Event A

module _ {A : Type 0} where
  unfoldable pub undo : Countdown A → Countdown A
  undo c = record c { timer = none; pending_send = none; seconds_left = none }

  -- `pendingSend?.()`.
  unfoldable pub call : Option A → Countdown A → Countdown A
  call none c = c
  call (some send) c = record c { made = c.made ++ send ∷ [] }

  unfoldable pub send_now : Countdown A → Countdown A
  send_now c = call c.pending_send (undo c)

  unfoldable pub start : A → Countdown A → Countdown A
  start send c = record (send_now c) {
    pending_send = some send;
    seconds_left = some undo_countdown_seconds;
    timer = some undo_countdown_seconds;
  }

  -- The interval's callback, with the seconds that remained before it.
  unfoldable pub tick_from : ℕ → Countdown A → Countdown A
  tick_from remaining c =
      if ltb 0 (remaining - 1)
      then record c { timer = some (remaining - 1); seconds_left = some (remaining - 1) }
      else send_now c

  unfoldable pub second_passed : Countdown A → Countdown A
  second_passed c = elim c.timer [ none ↦ c | some remaining ↦ tick_from remaining c ]

  unfoldable pub happen : Event A → Countdown A → Countdown A
  happen (started send) c = start send c
  happen undone c = undo c
  happen second c = second_passed c
  happen leave c = send_now c

  pub run_countdown : List (Event A) → Countdown A → Countdown A
  run_countdown [] c = c
  run_countdown (e ∷ events) c = run_countdown events (happen e c)
