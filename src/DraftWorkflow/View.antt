-- ===== src/DraftWorkflow/View.antt =====
-- lib/useDraftWorkflow.ts: what a render computes from its arguments and the state.
use aimail.Base.{
  ℕ, Bool, true, false, ◌&&◌, ◌||◌, Option, none, some, List, [], Text, String, string_eq, or_else,
  is_some, ltb, ◌===◌, if◌then◌else◌,
}
use aimail.Base.Maps.{get}
use aimail.Email.{Email, Tone, professional}
use aimail.Details.{restore_details, detail_values}
use aimail.DraftGuards.{has_unsaved_edits}
use aimail.DraftWorkflow.Types.{Render, Mutation, Workflow, PendingAction, for_email}

unfoldable pub email_id_of : Option Email → Option String
email_id_of none = none
email_id_of (some email) = some email.id

unfoldable pub email_id : Render → Option String
email_id v = email_id_of v.email

server_draft_of : Bool → Option Email → Text
server_draft_of is_hiding none = []
server_draft_of true (some email) = email.draft_reply
server_draft_of false (some email) = restore_details email.draft_reply (detail_values email.details)

-- The stored draft, with the real details unless the reader hides them.
pub server_draft : Render → Text
server_draft v = server_draft_of v.is_hiding_details v.email

unfoldable pub typed_of : Option String → List (String × Text) → Option Text
typed_of none typed = none
typed_of (some id) typed = get id typed

unfoldable pub typed_draft : Render → Workflow → Option Text
typed_draft v w = typed_of (email_id v) w.typed_by_email

unfoldable pub draft : Render → Workflow → Text
draft v w = or_else (typed_draft v w) (server_draft v)

own_tone : Option Email → Tone
own_tone none = professional
own_tone (some email) = email.tone

pub tone : Render → Workflow → Tone
tone v w = or_else (for_email w.chosen_tone (email_id v)) (own_tone v.email)

unfoldable pub pending_action : Render → Workflow → Option PendingAction
pending_action v w = for_email w.pending (email_id v)

unfoldable pub has_edits : Render → Workflow → Bool
has_edits v w = has_unsaved_edits (typed_draft v w) (server_draft v)

-- `===` of two ids that may be null.
unfoldable pub same_id : Option String → Option String → Bool
same_id none none = true
same_id none (some b) = false
same_id (some a) none = false
same_id (some a) (some b) = a === b

-- `mutation.variables?.emailId === emailId`: an absent id is `undefined`, which is not null.
unfoldable pub variables_are : Option String → Option String → Bool
variables_are none id = false
variables_are (some a) none = false
variables_are (some a) (some b) = a === b

unfoldable pub is_pending_for : Mutation → Option String → Bool
is_pending_for m id = m.is_pending && variables_are m.variables id

unfoldable pub is_scheduling : Render → Bool
is_scheduling v =
    is_pending_for v.scheduling (email_id v) || is_pending_for v.cancelling (email_id v)

unfoldable pub is_drafting : Option Email → Bool
is_drafting none = false
is_drafting (some email) = email.is_drafting

unfoldable pub is_waiting_for_draft : Render → Bool
is_waiting_for_draft v = v.is_loading || is_drafting v.email

unfoldable pub is_positive : Option ℕ → Bool
is_positive none = false
is_positive (some n) = ltb 0 n

unfoldable pub is_counting_down : Render → Workflow → Bool
is_counting_down v w = is_positive w.undo_countdown && same_id w.undo_email_id (email_id v)

unfoldable pub is_busy : Render → Workflow → Bool
is_busy v w =
    is_pending_for v.regenerating (email_id v)
    || is_pending_for v.refining (email_id v)
    || is_pending_for v.adapting (email_id v)
    || is_scheduling v
    || is_pending_for v.sending (email_id v)
    || is_waiting_for_draft v
    || is_counting_down v w

unfoldable pub is_final : Option Email → Bool
is_final none = false
is_final (some email) = is_some email.sent_at || is_some email.scheduled_for

-- Busy, sent or held: every control that changes the draft is disabled.
unfoldable pub is_draft_locked : Render → Workflow → Bool
is_draft_locked v w = is_busy v w || is_final v.email

pub data ComparisonSource : Type 0 where
  edits refine : ComparisonSource

-- What the Changes view compares.
pub record DraftComparison : Type 0 where
  pub before : Text
  pub after : Text
  pub source : ComparisonSource

unfoldable pub refine_before : Render → Workflow → Option Text
refine_before v w = typed_of (email_id v) w.refined_from

pub compare_with : Option Text → Option Text → Text → Text → DraftComparison
compare_with none (some before) server after = record {
  before = before;
  after = after;
  source = refine;
}
compare_with none none server after = record { before = server; after = after; source = edits }
compare_with (some typed) before server after = record {
  before = server;
  after = after;
  source = edits;
}

unfoldable pub comparison : Render → Workflow → DraftComparison
comparison v w = compare_with (typed_draft v w) (refine_before v w) (server_draft v) (draft v w)

-- The countdown that the reader is shown.
pub shown_countdown : Render → Workflow → Option ℕ
shown_countdown v w = if same_id w.undo_email_id (email_id v) then w.undo_countdown else none
