-- ===== src/DraftWorkflow/Cases.antt =====
-- lib/useDraftWorkflow.ts: the ways through a handler, for proofs about all of them.
use aimail.Base.{
  ℕ, ◌≡◌, refl, false, ◌||◌, Option, none, some, String, inl, inr, Bool-cases, Option-cases,
}
use aimail.DraftWorkflow.Types.{
  Render, Workflow, Platform, PendingAction, ConfirmKind, DraftAction, replace_edits, send_markers,
  schedule_email,
}
use aimail.DraftWorkflow.Requests.{start_request}
use aimail.DraftWorkflow.Countdown.{begin_undo_countdown}
use aimail.Email.{Tone}
use aimail.DraftWorkflow.View.{email_id, draft, pending_action, is_draft_locked}
use aimail.DraftWorkflow.Actions.{
  when_unlocked, has_blanks, next_question, closed_over, send, schedule, suggestion_now,
  send_at_suggestion, schedule_checked, go_on, ask, continue_send, no_question, confirm, act_on,
  start_regenerate, after_guard,
}

-- A handler does nothing, or what it does on an email whose draft is not locked.
pub when_unlocked_cases {ℓ} :
    (P : Workflow → Type ℓ) (v : Render) (w : Workflow) (f : String → Workflow)
    → P w
    → ((id : String) → email_id v ≡ some id → is_draft_locked v w ≡ false → P (f id))
    → P (when_unlocked v w f)
unfolding when_unlocked
when_unlocked_cases P v w f stay go = elim (Option-cases (email_id v)) [
  | inl e ↦ rw (when_unlocked, e) stay
  | inr (id, e) ↦ elim (Bool-cases (is_draft_locked v w)) [
    | inl locked ↦ rw (when_unlocked, e, locked) stay
    | inr free ↦ rw (when_unlocked, e, free) (go id e free)
  ]
]

-- The ways through the handlers that may send, each from the state `w` that the render saw.
module _ {ℓ} (P : Workflow → Type ℓ) (platform : Platform) (v : Render) (w : Workflow) (stay : P w)
    (drop_question : P (no_question w))
    (asks : (id : String) (action : PendingAction) → P (ask id action (no_question w)))
    (schedules : (id : String) (at : ℕ)
      → P (start_request id DraftAction.schedule (schedule_email (draft v w) at) (no_question w)))
    (regenerates : (id : String) (next : Tone) → P (start_regenerate id next (no_question w))) where
  schedule_checked_ways : (at : ℕ) → P (schedule_checked v at w (no_question w))
  schedule_checked_ways at = elim (Option-cases (email_id v)) [
    | inl e ↦ unfold schedule_checked in rw (schedule_checked, e) drop_question
    | inr (id, e) ↦ elim (Bool-cases (is_draft_locked v w || has_blanks v w)) [
      | inl locked ↦ unfold schedule_checked in rw (schedule_checked, e, locked) drop_question
      | inr free ↦ unfold schedule_checked in rw (schedule_checked, e, free) (schedules id at)
    ]
  ]

  go_on_ways :
      (id : String) (at : Option ℕ)
      → email_id v ≡ some id
      → is_draft_locked v w ≡ false
      → (at ≡ none → P (begin_undo_countdown (closed_over v id w) (no_question w)))
      → P (go_on v id at w (no_question w))
  unfolding go_on
  go_on_ways id none e free begins = begins refl
  go_on_ways id (some at) e free begins = schedule_checked_ways at

  continue_send_ways :
      (id : String) (from : ℕ) (at : Option ℕ)
      → email_id v ≡ some id
      → is_draft_locked v w ≡ false
      → (at ≡ none → P (begin_undo_countdown (closed_over v id w) (no_question w)))
      → P (continue_send platform v id from at w (no_question w))
  unfolding continue_send
  continue_send_ways id from at e free begins =
      elim (Option-cases (next_question platform v (draft v w) from at)) [
        | inl clear ↦ rw (continue_send, clear) (go_on_ways id at e free begins)
        | inr (kind, stop) ↦ rw (continue_send, stop) (asks id _)
      ]

  pub send_ways :
      ((id : String)
        → email_id v ≡ some id
        → is_draft_locked v w ≡ false
        → P (begin_undo_countdown (closed_over v id w) (no_question w)))
      → P (send platform v w)
  unfolding send
  send_ways begins = when_unlocked_cases P v w _ stay λ id e free.
      elim (Bool-cases (has_blanks v w)) [
        | inl blanks ↦ rw blanks stay
        | inr full ↦ rw full (continue_send_ways id 0 none e free (λ _. begins id e free))
      ]

  pub schedule_ways : (at : ℕ) → P (schedule platform v at w)
  unfolding schedule
  schedule_ways at = when_unlocked_cases P v w _ stay λ id e free.
      elim (Bool-cases (has_blanks v w)) [
        | inl blanks ↦ rw blanks stay
        | inr full ↦ rw full (continue_send_ways id 0 (some at) e free (λ z. cc))
      ]

  act_on_ways :
      (id : String) (action : PendingAction) (kind : ConfirmKind)
      → action.kind ≡ kind
      → email_id v ≡ some id
      → is_draft_locked v w ≡ false
      → P (begin_undo_countdown (closed_over v id w) (no_question w))
      → P (act_on platform v id action w (no_question w))
  unfolding act_on
  act_on_ways id action replace_edits k e free begins = rw (act_on, k) (regenerates id action.tone)
  act_on_ways id action send_markers k e free begins =
      rw (act_on, k)
        (continue_send_ways id (after_guard action.kind) action.send_at e free (λ _. begins))
  act_on_ways id action kind k e free begins =
      rw (act_on, k)
        (continue_send_ways id (after_guard action.kind) action.send_at e free (λ _. begins))

  pub confirm_ways :
      ((id : String)
        → email_id v ≡ some id
        → is_draft_locked v w ≡ false
        → P (begin_undo_countdown (closed_over v id w) (no_question w)))
      → P (confirm platform v w)
  unfolding confirm
  confirm_ways begins = elim (Option-cases (email_id v)) [
    | inl e ↦ rw (confirm, e) drop_question
    | inr (id, e) ↦ elim (Option-cases (pending_action v w)) [
      | inl nothing ↦ rw (confirm, e, nothing) drop_question
      | inr (action, asked) ↦ elim (Bool-cases (is_draft_locked v w)) [
        | inl locked ↦ rw (confirm, e, asked, locked) drop_question
        | inr free ↦
            rw (confirm, e, asked, free)
              (act_on_ways id action action.kind refl e free (begins id e free))
      ]
    ]
  ]

  pub send_at_suggestion_ways : P (send_at_suggestion platform v w)
  unfolding send_at_suggestion
  send_at_suggestion_ways = elim (Option-cases (suggestion_now platform v)) [
    | inl fine ↦ rw (send_at_suggestion, fine) drop_question
    | inr (suggestion, quiet) ↦
        rw (send_at_suggestion, quiet) (schedule_checked_ways suggestion.send_at)
  ]
