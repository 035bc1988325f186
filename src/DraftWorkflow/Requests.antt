-- ===== src/DraftWorkflow/Requests.antt =====
-- lib/useDraftWorkflow.ts, `runMutation`: a request is numbered per email, and only the answer to
-- the last one that was made for an email changes what the reader sees of it.
use aimail.Base.{
  ℕ, ◌+◌, Bool, true, false, ◌&&◌, Option, none, some, [], ◌∷◌, ◌++◌, String, string_eq, or_else,
  ◌==◌, ◌===◌, if◌then◌else◌,
}
use aimail.Base.Maps.{get, put, delete}
use aimail.Email.{Tone, professional, casual}
use aimail.DraftWorkflow.Types.{
  DraftAction, Scoped, Request, Job, Workflow, PendingSend, regenerate_email, refine_email,
  send_email,
}

-- `requestSeqRef.current.get(id) ?? 0`.
unfoldable pub seq_of : Workflow → String → ℕ
seq_of w id = or_else (get id w.request_seq) 0

-- Whether a scoped value is another email's.
unfoldable pub unless_for : {A : Type 0} → String → Option (Scoped A) → Option (Scoped A)
unless_for id none = none
unless_for id (some scoped) = if scoped.email_id === id then none else some scoped

-- `runMutation` up to its `await`.
unfoldable pub start_request : String → DraftAction → Request → Workflow → Workflow
start_request id action request w = record w {
  request_seq = put id (seq_of w id + 1) w.request_seq;
  failed = unless_for id w.failed;
  issued =
      w.issued
      ++ record { email_id = id; action = action; seq = seq_of w id + 1; request = request } ∷ [];
}

unfoldable pub is_latest : Job → Workflow → Bool
is_latest job w = seq_of w job.email_id == job.seq

-- The announcement is cleared now, and set on the next frame.
unfoldable pub announce : DraftAction → Workflow → Workflow
announce text w = record w { announcement = none; frames = w.frames ++ text ∷ [] }

-- `onDone`: a Refine records the draft that it was given.
unfoldable pub on_done : Job → Workflow → Workflow
on_done job w = elim job.request [
  | refine_email instruction draft tone ↦ record w {
    refined_from = put job.email_id draft w.refined_from;
  }
  | _ ↦ w
]

-- The answer came.
unfoldable pub request_done : Job → Workflow → Workflow
request_done job w =
    if is_latest job w
    then announce job.action (
        on_done job (record w {
          typed_by_email = delete job.email_id w.typed_by_email;
          refined_from = delete job.email_id w.refined_from;
        }))
    else w

unfoldable pub tone_eq : Tone → Tone → Bool
tone_eq professional professional = true
tone_eq casual casual = true
tone_eq _ _ = false

-- The toggle goes back, unless the reader has picked another tone since.
unfoldable pub untoggle : String → Tone → Option (Scoped Tone) → Option (Scoped Tone)
untoggle id tone none = none
untoggle id tone (some chosen) =
    if chosen.email_id === id && tone_eq chosen.value tone then none else some chosen

-- The callers' `catch`: a Regenerate puts its tone back, and the failure of any other is on screen.
unfoldable pub on_rejected : Job → Workflow → Workflow
on_rejected job w = elim job.request [
  | regenerate_email tone ↦ record w { chosen_tone = untoggle job.email_id tone w.chosen_tone }
  | _ ↦ w
]

-- The request failed.
unfoldable pub request_failed : Job → String → Workflow → Workflow
request_failed job error w = on_rejected job (
    if is_latest job w
    then record w {
      failed = some (record {
        email_id = job.email_id;
        value = record { action = job.action; error = error };
      });
    }
    else w)

-- `startSend`, with the draft and "remind me" that its closure holds.
unfoldable pub start_send : PendingSend → Workflow → Workflow
start_send p w =
    start_request p.email_id DraftAction.send (send_email p.text p.remind_if_no_reply) w
