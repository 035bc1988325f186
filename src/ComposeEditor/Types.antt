-- ===== src/ComposeEditor/Types.antt =====
-- lib/useComposeDraft.ts: the state and refs of the editor, and what a render sees.
use aimail.Base.{ℕ, Bool, Option, List, Text, String}
use aimail.Email.{Tone}
use aimail.ComposeDraft.{ComposeDraft}
use aimail.DraftWorkflow.Types.{ConfirmKind}
use aimail.UndoCountdown.{Countdown}
use aimail.ComposeEditor.Edits.{Edits}

pub data ComposeAction : Type 0 where
  write refine send settle delete : ComposeAction

pub data SaveStatus : Type 0 where
  idle saving saved failed : SaveStatus

pub data SendBlocker : Type 0 where
  no_recipient no_subject no_body missing_details unfilled_blanks redaction_markers : SendBlocker

-- types/compose.ts.
pub data SettleOutcome : Type 0 where
  sent not_sent : SettleOutcome

pub record ComposeFields : Type 0 where
  pub to : List Text
  pub cc : List Text
  pub subject : Text
  pub brief : Text
  pub body : Text
  pub tone : Tone

pub record OutgoingEmail : Type 0 where
  pub to : List Text
  pub cc : List Text
  pub subject : Text
  pub body : Text
  pub remind_if_no_reply : Bool

-- A kept failure is known by its identity, here a number.
pub record ComposeSendFailure : Type 0 where
  pub number : ℕ
  pub error : String

pub record ComposeFailure : Type 0 where
  pub action : ComposeAction
  pub error : String

-- What a task asks of the service, with the fields that its closure holds.
pub data Request : Type 0 where
  write_email : ComposeFields → Request
  refine_email : ComposeFields → Text → Request
  send_email : OutgoingEmail → Request
  settle_outcome : SettleOutcome → Request
  delete_email : Request

-- A task under way, and how many saves it waits for before it makes its request.
pub record Task : Type 0 where
  pub number : ℕ
  pub action : ComposeAction
  pub request : Request
  pub waits : ℕ

-- The send that the undo window closes over.
pub record Approved : Type 0 where
  pub email : OutgoingEmail
  pub kept : Option ComposeSendFailure

-- `queue` is the chain of `savingRef`, the save under way first; `saves_made` has the saves that
-- succeeded, `issued` the requests that were made, and `frames` the announcements still to come.
pub record Editor : Type 0 where
  pub edits : Edits
  pub unsaved : Edits
  pub is_timer_set : Bool
  pub queue : List Edits
  pub saves_made : List Edits
  pub save_status : SaveStatus
  pub ai_body : Option Text
  pub busy : Option ComposeAction
  pub failure : Option ComposeFailure
  pub answered_failure : Option ComposeSendFailure
  pub pending : Option ConfirmKind
  pub remind_if_no_reply : Bool
  pub announcement : Option ComposeAction
  pub frames : List ComposeAction
  pub countdown : Countdown Approved
  pub next_task : ℕ
  pub tasks : List Task
  pub issued : List Request
  pub is_deleted : Bool

-- The arguments and the queries of a render.
pub record Render : Type 0 where
  pub draft : ComposeDraft
  pub is_hiding_details : Bool
  pub kept_failure : Option ComposeSendFailure
