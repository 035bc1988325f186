-- ===== src/DraftWorkflow/Answers.antt =====
-- lib/useDraftWorkflow.ts, `runMutation`: what the answers of the service may change.
use aimail.Base.{
  ◌+◌, ◌≡◌, ◌≢◌, refl, ap, ◌∙◌, true, false, Option, none, some, List, Text, String, inl, inr,
  Bool-cases, arith, if◌then◌else◌, ◌==◌, ◌===◌, eq_iff, eq_refl, string_eq,
}
use aimail.Base.Maps.{get, put, delete, get-put, get-delete}
use aimail.DraftWorkflow.Types.{
  Render, Workflow, Job, DraftAction, Request, refine_email, for_email,
}
use aimail.DraftWorkflow.Requests.{
  seq_of, start_request, is_latest, announce, on_done, request_done, on_rejected, request_failed,
}
use aimail.DraftWorkflow.View.{
  email_id, typed_of, typed_draft, server_draft, draft, refine_before, compare_with, comparison,
}

-- After a new request for an email, a request for that email is the latest only if it has the next
-- number, and whether a request for another email is the latest is unchanged.
is_latest-start_request :
    (id : String) (action : DraftAction) (request : Request) (w : Workflow) (job : Job)
    → is_latest job (start_request id action request w)
      ≡ (if id === job.email_id then seq_of w id + 1 == job.seq else is_latest job w)
unfolding is_latest seq_of start_request
is_latest-start_request id action request w job =
    rw (get-put id job.email_id (seq_of w id + 1) w.request_seq)
      (elim (Bool-cases (id === job.email_id)) [ inl e ↦ rw e refl | inr e ↦ rw e refl ])

-- The comparison is made of the typed text and of the text that was refined.
comparison-eq :
    (v : Render) (w u : Workflow)
    → typed_draft v u ≡ typed_draft v w
    → refine_before v u ≡ refine_before v w
    → comparison v u ≡ comparison v w
unfolding comparison draft
comparison-eq v w u typed refined = rw (typed, refined) refl

request_failed-texts :
    (job : Job) (error : String) (w : Workflow)
    → ((request_failed job error w).typed_by_email ≡ w.typed_by_email)
      × ((request_failed job error w).refined_from ≡ w.refined_from)
unfolding request_failed on_rejected
request_failed-texts job error w = ground arith

request_failed-comparison :
    (job : Job) (error : String) (w : Workflow) (v : Render)
    → comparison v (request_failed job error w) ≡ comparison v w
unfolding typed_draft refine_before
request_failed-comparison job error w v =
    let (typed, refined) = request_failed-texts job error w in
    comparison-eq v w _ (ap (typed_of (email_id v)) typed) (ap (typed_of (email_id v)) refined)

request_failed-failed :
    (job : Job) (error : String) (w : Workflow)
    → (request_failed job error w).failed ≡ (
        if is_latest job w
        then some (record {
          email_id = job.email_id;
          value = record { action = job.action; error = error };
        })
        else w.failed)
unfolding request_failed on_rejected
request_failed-failed job error w = ground arith

stale_done : (job : Job) (w : Workflow) → is_latest job w ≡ false → request_done job w ≡ w
unfolding request_done
stale_done job w stale = rw stale refl

-- A stale answer changes nothing, and a stale failure neither the draft, nor what it is compared
-- with, nor the failure that is on screen.
stale_answer :
    (job : Job) (error : String) (w : Workflow) (v : Render)
    → is_latest job w ≡ false
    → (request_done job w ≡ w)
      × (comparison v (request_failed job error w) ≡ comparison v w)
      × ((request_failed job error w).failed ≡ w.failed)
stale_answer job error w v stale = (
  stale_done job w stale,
  request_failed-comparison job error w v,
  request_failed-failed job error w ∙ rw stale refl,
)

-- What a Refine was given, if that is what was asked.
abbrev pub given : Request → Option Text
given (refine_email instruction draft tone) = some draft
given _ = none

-- The maps behind an answer that is the latest.
request_done-typed :
    (job : Job) (w : Workflow)
    → is_latest job w ≡ true
    → (request_done job w).typed_by_email ≡ delete job.email_id w.typed_by_email
unfolding request_done announce on_done
request_done-typed job w latest = ground arith

refined_after : Option Text → String → List (String × Text) → List (String × Text)
refined_after none id refined = delete id refined
refined_after (some text) id refined = put id text (delete id refined)

request_done-refined :
    (job : Job) (w : Workflow)
    → is_latest job w ≡ true
    → (request_done job w).refined_from
      ≡ refined_after (given job.request) job.email_id w.refined_from
unfolding request_done announce on_done refined_after
request_done-refined job w latest = ground arith

request_done-failed : (job : Job) (w : Workflow) → (request_done job w).failed ≡ w.failed
unfolding request_done announce on_done
request_done-failed job w = ground arith

refined_after-get :
    (text : Option Text) (id j : String) (refined : List (String × Text))
    → get j (refined_after text id refined) ≡ (if id === j then text else get j refined)
unfolding refined_after
refined_after-get none id j refined = get-delete id j refined
refined_after-get (some text) id j refined =
    get-put id j text (delete id refined) ∙ (elim (Bool-cases (id === j)) [
      | inl e ↦ rw e refl
      | inr e ↦ rw (get-delete id j refined, e) refl
    ])

-- The answer to the last request for the email on screen shows the stored draft in place of what
-- the reader typed; after a Refine it is compared with the text that the Refine was given.
latest_answer :
    (job : Job) (w : Workflow) (v : Render)
    → email_id v ≡ some job.email_id
    → is_latest job w ≡ true
    → comparison v (request_done job w)
      ≡ compare_with none (given job.request) (server_draft v) (server_draft v)
unfolding comparison draft typed_draft refine_before typed_of
latest_answer job w v on latest =
    rw
      (
        comparison,
        on,
        request_done-typed job w latest,
        request_done-refined job w latest,
        refined_after-get (given job.request) job.email_id job.email_id w.refined_from,
        get-delete job.email_id job.email_id w.typed_by_email,
        eq_refl job.email_id,
      )
      refl

differ : (a b : String) → a ≢ b → (a === b) ≡ false
differ a b ne = ground (arith, eq_iff a b)

same_texts :
    (job : Job) (w : Workflow) (id : String)
    → job.email_id ≢ id
    → (get id (request_done job w).typed_by_email ≡ get id w.typed_by_email)
      × (get id (request_done job w).refined_from ≡ get id w.refined_from)
same_texts job w id other = elim (Bool-cases (is_latest job w)) [
  | inl latest ↦ (
    rw
        (
          request_done-typed job w latest,
          get-delete job.email_id id w.typed_by_email,
          differ job.email_id id other,
        )
        refl,
    rw
        (
          request_done-refined job w latest,
          refined_after-get (given job.request) job.email_id id w.refined_from,
          differ job.email_id id other,
        )
        refl,
  )
  | inr stale ↦
      let same = stale_done job w stale in
      (ap (λ u. get id u.typed_by_email) same, ap (λ u. get id u.refined_from) same)
]

-- The answer to a request for one email changes neither the draft of another, nor what that is
-- compared with, nor the failure that is on screen there; a failure for one email leaves the draft
-- and the comparison of another, but takes its failure off the screen if it is the latest.
pub other_email_answer :
    (job : Job) (error : String) (w : Workflow) (v : Render) (id : String)
    → email_id v ≡ some id
    → job.email_id ≢ id
    → (comparison v (request_done job w) ≡ comparison v w)
      × (for_email (request_done job w).failed (some id) ≡ for_email w.failed (some id))
      × (comparison v (request_failed job error w) ≡ comparison v w)
      × (for_email (request_failed job error w).failed (some id)
          ≡ (if is_latest job w then none else for_email w.failed (some id)))
unfolding typed_draft refine_before typed_of for_email
other_email_answer job error w v id on other =
    let (typed, refined) = same_texts job w id other in
    (
      comparison-eq v w _ (rw on typed) (rw on refined),
      ap (λ f. for_email f (some id)) (request_done-failed job w),
      request_failed-comparison job error w v,
      elim (Bool-cases (is_latest job w)) [
        | inl latest ↦
            rw (request_failed-failed job error w, latest, differ job.email_id id other) refl
        | inr stale ↦ rw (request_failed-failed job error w, stale) refl
      ],
    )
