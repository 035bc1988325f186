-- ===== src/DraftWorkflow/Types.antt =====
-- lib/useDraftWorkflow.ts: the state of the hook, its requests, and what a render sees.
use aimail.Base.{ℕ, Bool, Option, none, some, List, [], Text, String, ◌===◌, if◌then◌else◌}
use aimail.Email.{Email, Tone}
use aimail.QuietHours.{QuietHours}
use aimail.QuietHours.Clocks.{Offset}

pub data DraftAction : Type 0 where
  regenerate refine template schedule cancel_schedule send : DraftAction

pub data ConfirmKind : Type 0 where
  replace_edits send_markers send_templates tone_warning quiet_hours : ConfirmKind

-- The last action that failed, and why.
pub record DraftFailure : Type 0 where
  pub action : DraftAction
  pub error : String

-- What was asked, not a callback. With `send_at` the warning came from Send later.
pub record PendingAction : Type 0 where
  pub kind : ConfirmKind
  pub tone : Tone
  pub send_at : Option ℕ

-- Local state that remembers which email it belongs to.
pub record Scoped (A : Type 0) : Type 0 where
  pub email_id : String
  pub value : A

-- The parameters of the service's calls.
pub data Request : Type 0 where
  regenerate_email : Tone → Request
  refine_email : Text → Text → Tone → Request
  adapt_template : String → Tone → Request
  schedule_email : Text → ℕ → Request
  cancel_schedule_email : Request
  send_email : Text → Bool → Request

-- A request that was made for an email, with the number that it took there.
pub record Job : Type 0 where
  pub email_id : String
  pub action : DraftAction
  pub seq : ℕ
  pub request : Request

-- The send that a countdown will make: a closure over the email, its draft and "remind me", as they
-- were when the send was approved.
pub record PendingSend : Type 0 where
  pub email_id : String
  pub text : Text
  pub remind_if_no_reply : Bool

-- The interval's callback, with its variable `remaining`.
pub record Interval : Type 0 where
  pub remaining : ℕ
  pub send : PendingSend

pub record Workflow : Type 0 where
  pub typed_by_email : List (String × Text)
  pub remind_by_email : List (String × Bool)
  pub refined_from : List (String × Text)
  pub chosen_tone : Option (Scoped Tone)
  pub failed : Option (Scoped DraftFailure)
  pub pending : Option (Scoped PendingAction)
  pub announcement : Option DraftAction
  pub frames : List DraftAction
  pub undo_countdown : Option ℕ
  pub undo_email_id : Option String
  pub interval : Option Interval
  pub pending_send : Option PendingSend
  pub request_seq : List (String × ℕ)
  pub issued : List Job

abbrev pub initial : Workflow
initial = record {
  typed_by_email = [];
  remind_by_email = [];
  refined_from = [];
  chosen_tone = none;
  failed = none;
  pending = none;
  announcement = none;
  frames = [];
  undo_countdown = none;
  undo_email_id = none;
  interval = none;
  pending_send = none;
  request_seq = [];
  issued = [];
}

-- A mutation of the query library: whether its last call is in flight, and that call's email.
pub record Mutation : Type 0 where
  pub is_pending : Bool
  pub variables : Option String

-- What a render of the hook is given: its arguments, and what the other hooks return.
pub record Render : Type 0 where
  pub email : Option Email
  pub is_loading : Bool
  pub is_hiding_details : Bool
  pub regenerating : Mutation
  pub refining : Mutation
  pub adapting : Mutation
  pub scheduling : Mutation
  pub cancelling : Mutation
  pub sending : Mutation
  pub quiet_hours : Option QuietHours
  pub now : ℕ

-- What the program takes from elsewhere: the tone check, which rests on Unicode's tables of the
-- regular expressions, and the offset of a named time zone, which `Intl` gives.
pub record Platform : Type 0 where
  pub has_tone_issues : Text → Bool
  pub zone_offset : String → ℕ → Offset

unfoldable pub for_email : {A : Type 0} → Option (Scoped A) → Option String → Option A
for_email none id = none
for_email (some scoped) none = none
for_email (some scoped) (some id) = if scoped.email_id === id then some scoped.value else none
