-- ===== src/UndoCountdown/Laws.antt =====
-- lib/useUndoCountdown.ts: what becomes of each send that was approved.
use aimail.Base.{
  ℕ, ◌-◌, Bool, Option, none, some, List, [], ◌∷◌, ◌++◌, is_some, append-nil, ltb, ◌≡◌, refl, sym,
  ap, ◌∙◌, Bool-cases, inl, inr, if◌then◌else◌,
}
use aimail.UndoCountdown.{
  Countdown, undo, call, send_now, start, tick_from, second_passed, Event, started, undone, second,
  leave, happen, run_countdown,
}

module _ {A : Type 0} where
  -- The send that waits, as a list.
  abbrev pub waiting : Option A → List A
  waiting none = []
  waiting (some send) = send ∷ []

  -- The sends made, in order, and the one that waits.
  abbrev pub approved : Countdown A → List A
  approved c = c.made ++ waiting c.pending_send

  unfoldable pub without_last : List A → List A
  without_last [] = []
  without_last (send ∷ []) = []
  without_last (send ∷ next ∷ sends) = send ∷ without_last (next ∷ sends)

  -- What is to come of the approved sends: a started one is behind the others, an Undo takes the last
  -- one back while it waits, and nothing else adds, drops or moves one.
  unfoldable pub after_event : Event A → Bool → List A → List A
  after_event (started send) is_waiting sends = sends ++ send ∷ []
  after_event undone is_waiting sends = if is_waiting then without_last sends else sends
  after_event _ is_waiting sends = sends

  unfoldable pub after_events : List (Event A) → Countdown A → List A → List A
  after_events [] c sends = sends
  after_events (e ∷ events) c sends =
      after_events events (happen e c) (after_event e (is_some c.pending_send) sends)

  without_last-append : (sends : List A) (send : A) → without_last (sends ++ send ∷ []) ≡ sends
  unfolding without_last
  without_last-append [] send = refl
  without_last-append (first ∷ []) send = refl
  without_last-append (first ∷ next ∷ sends) send =
      ap (λ rest. first ∷ rest) (without_last-append (next ∷ sends) send)

  send_now-made : (c : Countdown A) → (send_now c).made ≡ approved c
  unfolding send_now undo call
  send_now-made c = called c.pending_send
    where
      called : (o : Option A) → (call o (undo c)).made ≡ c.made ++ waiting o
      called none = sym (append-nil c.made)
      called (some send) = refl

  send_now-closed : (c : Countdown A) → (send_now c).pending_send ≡ none
  unfolding send_now undo call
  send_now-closed c = called c.pending_send
    where
      called : (o : Option A) → (call o (undo c)).pending_send ≡ none
      called none = refl
      called (some send) = refl

  send_now-approved : (c : Countdown A) → approved (send_now c) ≡ approved c
  send_now-approved c =
      ap (λ o. (send_now c).made ++ waiting o) (send_now-closed c)
      ∙ append-nil (send_now c).made
      ∙ send_now-made c

  tick_from-approved : (n : ℕ) (c : Countdown A) → approved (tick_from n c) ≡ approved c
  unfolding tick_from
  tick_from-approved n c = elim (Bool-cases (ltb 0 (n - 1))) [
    | inl e ↦ rw e refl
    | inr e ↦ rw e (send_now-approved c)
  ]

  second_passed-approved : (c : Countdown A) → approved (second_passed c) ≡ approved c
  unfolding second_passed
  second_passed-approved c = timed c.timer
    where
      timed : (o : Option ℕ) → approved (elim o [ none ↦ c | some n ↦ tick_from n c ]) ≡ approved c
      timed none = refl
      timed (some n) = tick_from-approved n c

  undo-approved :
      (made : List A) (o : Option A)
      → made ++ [] ≡ (if is_some o then without_last (made ++ waiting o) else made ++ waiting o)
  undo-approved made none = refl
  undo-approved made (some send) = append-nil made ∙ sym (without_last-append made send)

  happen-approved :
      (e : Event A) (c : Countdown A)
      → approved (happen e c) ≡ after_event e (is_some c.pending_send) (approved c)
  unfolding happen after_event start undo
  happen-approved (started send) c = ap (λ made. made ++ send ∷ []) (send_now-made c)
  happen-approved undone c = undo-approved c.made c.pending_send
  happen-approved second c = second_passed-approved c
  happen-approved leave c = send_now-approved c

  -- After any history of the hook, the sends that were called, in order, with the one that waits behind
  -- them, are the ones that were called or waited before it, with each send that is started put behind
  -- them, and the last of them taken away by each Undo that is pressed while a send waits.
  pub run_countdown-approved :
      (events : List (Event A)) (c : Countdown A)
      → approved (run_countdown events c) ≡ after_events events c (approved c)
  unfolding run_countdown after_events
  run_countdown-approved [] c = refl
  run_countdown-approved (e ∷ events) c =
      run_countdown-approved events (happen e c)
      ∙ ap (after_events events (happen e c)) (happen-approved e c)
