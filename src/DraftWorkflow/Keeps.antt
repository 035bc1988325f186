-- ===== src/DraftWorkflow/Keeps.antt =====
-- lib/useDraftWorkflow.ts: the handlers that neither send nor touch the undo window.
use aimail.Base.{
  ℕ, ◌+◌, ◌≡◌, refl, sym, ap, ◌∙◌, append-nil, append_assoc, Bool, true, false, List, [], ◌∷◌, ◌++◌,
  Text, String, inl, inr, Bool-cases, Option-cases, arith,
}
use aimail.Email.{Tone}
use aimail.DraftWorkflow.Types.{
  Render, Workflow, Platform, PendingAction, Job, DraftAction, Request, PendingSend, send_email,
  schedule_email, regenerate_email, refine_email, adapt_template, cancel_schedule_email,
}
use aimail.DraftWorkflow.Requests.{
  start_request, request_done, request_failed, on_done, on_rejected, announce,
}
use aimail.DraftWorkflow.Actions.{
  ask, no_question, start_regenerate, regenerate, refine, draft_from_template, set_draft, clear_if,
  insert_text, set_remind_if_no_reply, cancel_schedule, schedule, send_at_suggestion,
}
use aimail.DraftWorkflow.View.{email_id, has_edits, is_scheduling}
use aimail.DraftWorkflow.Window.{SameWindow}
use aimail.DraftWorkflow.Cases.{when_unlocked_cases, schedule_ways, send_at_suggestion_ways}

unfoldable pub is_send : Request → ℕ
is_send (send_email text remind) = 1
is_send _ = 0

-- How many sends were requested.
unfoldable pub sends : List Job → ℕ
sends [] = 0
sends (job ∷ jobs) = is_send job.request + sends jobs

sends-append : (jobs more : List Job) → sends (jobs ++ more) ≡ sends jobs + sends more
unfolding sends
sends-append [] more = omega arith
sends-append (job ∷ jobs) more = omega (arith, sends-append jobs more)

-- What a request sends, for the email that it was made for.
unfoldable pub send_of : String → Request → List PendingSend
send_of id (send_email text remind) =
    record { email_id = id; text = text; remind_if_no_reply = remind } ∷ []
send_of id _ = []

-- The sends that were requested, in order.
unfoldable pub sends_of : List Job → List PendingSend
sends_of [] = []
sends_of (job ∷ jobs) = send_of job.email_id job.request ++ sends_of jobs

sends_of-append :
    (jobs : List Job) (job : Job)
    → sends_of (jobs ++ job ∷ []) ≡ sends_of jobs ++ send_of job.email_id job.request
unfolding sends_of
sends_of-append [] job = append-nil _
sends_of-append (first ∷ jobs) job =
    ap (λ rest. send_of first.email_id first.request ++ rest) (sends_of-append jobs job)
    ∙ sym (append_assoc (send_of first.email_id first.request) _ _)

pub start_request-sends_of :
    (id : String) (action : DraftAction) (request : Request) (w : Workflow)
    → sends_of (start_request id action request w).issued ≡ sends_of w.issued ++ send_of id request
unfolding start_request
start_request-sends_of id action request w = sends_of-append w.issued _

no_send : (id : String) (request : Request) → is_send request ≡ 0 → send_of id request ≡ []
unfolding send_of is_send
no_send id (send_email text remind) h = absurd (ground arith)
no_send id (regenerate_email tone) h = refl
no_send id (refine_email text given tone) h = refl
no_send id (adapt_template template tone) h = refl
no_send id (schedule_email text at) h = refl
no_send id cancel_schedule_email h = refl

-- The window and the sends that were requested stand as they did.
abbrev pub Keeps : Workflow → Workflow → Type 0
Keeps w u =
    SameWindow w u × (sends u.issued ≡ sends w.issued) × (sends_of u.issued ≡ sends_of w.issued)

pub Keeps-refl : (w : Workflow) → Keeps w w
Keeps-refl w = ((refl, refl, refl, refl), refl, refl)

pub start_request-sends :
    (id : String) (action : DraftAction) (request : Request) (w : Workflow)
    → sends (start_request id action request w).issued ≡ sends w.issued + is_send request
unfolding start_request sends
start_request-sends id action request w = omega (arith, sends-append w.issued)

start_request-Keeps :
    (id : String) (action : DraftAction) (request : Request) (w u : Workflow)
    → is_send request ≡ 0
    → Keeps w u
    → Keeps w (start_request id action request u)
unfolding start_request
start_request-Keeps id action request w u none_sent (same, count, listed) = (
  same,
  omega (arith, count, start_request-sends id action request u),
  start_request-sends_of id action request u
      ∙ ap (λ more. sends_of u.issued ++ more) (no_send id request none_sent)
      ∙ append-nil (sends_of u.issued)
      ∙ listed,
)

clear_if-Keeps : (b : Bool) (w u : Workflow) → Keeps w u → Keeps w (clear_if b u)
unfolding clear_if no_question
clear_if-Keeps true w u h = h
clear_if-Keeps false w u h = h

pub regenerate-Keeps : (v : Render) (next : Tone) (w : Workflow) → Keeps w (regenerate v next w)
unfolding regenerate ask start_regenerate is_send
regenerate-Keeps v next w = when_unlocked_cases (Keeps w) v w _ (Keeps-refl w) λ id e free.
    elim (Bool-cases (has_edits v w)) [
      | inl edits ↦ rw edits (Keeps-refl w)
      | inr clean ↦ rw clean (start_request-Keeps id _ _ w _ refl (Keeps-refl w))
    ]

pub refine-Keeps :
    (v : Render) (instruction : Text) (w : Workflow) → Keeps w (refine v instruction w)
unfolding refine is_send
refine-Keeps v instruction w =
    when_unlocked_cases (Keeps w) v w _ (Keeps-refl w)
      λ id e free. start_request-Keeps id _ _ w w refl (Keeps-refl w)

pub draft_from_template-Keeps :
    (v : Render) (template : String) (w : Workflow) → Keeps w (draft_from_template v template w)
unfolding draft_from_template is_send
draft_from_template-Keeps v template w =
    when_unlocked_cases (Keeps w) v w _ (Keeps-refl w)
      λ id e free. start_request-Keeps id _ _ w w refl (Keeps-refl w)

pub set_draft-Keeps : (v : Render) (text : Text) (w : Workflow) → Keeps w (set_draft v text w)
unfolding set_draft
set_draft-Keeps v text w =
    when_unlocked_cases (Keeps w) v w _ (Keeps-refl w)
      λ id e free. clear_if-Keeps _ w _ (Keeps-refl w)

pub set_remind_if_no_reply-Keeps :
    (v : Render) (is_on : Bool) (w : Workflow) → Keeps w (set_remind_if_no_reply v is_on w)
unfolding set_remind_if_no_reply
set_remind_if_no_reply-Keeps v is_on w = elim (Option-cases (email_id v)) [
  | inl e ↦ rw (set_remind_if_no_reply, e) (Keeps-refl w)
  | inr (id, e) ↦ rw (set_remind_if_no_reply, e) (Keeps-refl w)
]

pub cancel_schedule-Keeps : (v : Render) (w : Workflow) → Keeps w (cancel_schedule v w)
unfolding cancel_schedule is_send
cancel_schedule-Keeps v w = elim (Option-cases (email_id v)) [
  | inl e ↦ rw (cancel_schedule, e) (Keeps-refl w)
  | inr (id, e) ↦ elim (Bool-cases (is_scheduling v)) [
    | inl busy ↦ rw (cancel_schedule, e, busy) (Keeps-refl w)
    | inr idle ↦ rw (cancel_schedule, e, idle) (start_request-Keeps id _ _ w w refl (Keeps-refl w))
  ]
]

pub request_done-Keeps : (job : Job) (w : Workflow) → Keeps w (request_done job w)
unfolding request_done announce on_done
request_done-Keeps job w = ground arith

pub request_failed-Keeps :
    (job : Job) (error : String) (w : Workflow) → Keeps w (request_failed job error w)
unfolding request_failed on_rejected
request_failed-Keeps job error w = ground arith

pub insert_text-Keeps :
    (v : Render) (filled : Text) (w : Workflow) → Keeps w (insert_text v filled w)
unfolding insert_text
insert_text-Keeps v filled w = set_draft-Keeps v _ w

pub no_question-Keeps : (w : Workflow) → Keeps w (no_question w)
unfolding no_question
no_question-Keeps w = Keeps-refl w

pub ask-Keeps :
    (id : String) (action : PendingAction) (w : Workflow) → Keeps w (ask id action (no_question w))
unfolding ask no_question
ask-Keeps id action w = Keeps-refl w

pub schedule_request-Keeps :
    (id : String) (text : Text) (at : ℕ) (w : Workflow)
    → Keeps w (start_request id DraftAction.schedule (schedule_email text at) (no_question w))
unfolding is_send no_question
schedule_request-Keeps id text at w = start_request-Keeps id _ _ w _ refl (Keeps-refl w)

pub start_regenerate-Keeps :
    (id : String) (next : Tone) (w : Workflow) → Keeps w (start_regenerate id next (no_question w))
unfolding start_regenerate is_send no_question
start_regenerate-Keeps id next w = start_request-Keeps id _ _ w _ refl (Keeps-refl w)

module _ (platform : Platform) (v : Render) (w : Workflow) where
  pub schedule-Keeps : (at : ℕ) → Keeps w (schedule platform v at w)
  schedule-Keeps =
      schedule_ways (Keeps w) platform v w (Keeps-refl w) (no_question-Keeps w)
        (λ id action. ask-Keeps id action w) (λ id at. schedule_request-Keeps id _ at w)
        (λ id next. start_regenerate-Keeps id next w)

  pub send_at_suggestion-Keeps : Keeps w (send_at_suggestion platform v w)
  send_at_suggestion-Keeps =
      send_at_suggestion_ways (Keeps w) platform v w (Keeps-refl w) (no_question-Keeps w)
        (λ id action. ask-Keeps id action w) (λ id at. schedule_request-Keeps id _ at w)
        (λ id next. start_regenerate-Keeps id next w)
