-- ===== src/Demo/State.antt =====
-- demo/state.ts: finding and changing an email, and recording what was done.
use aimail.Base.{
  ℕ, ◌+◌, true, Option, none, some, List, [], ◌∷◌, ◌++◌, String, string_eq, length, find, ◌===◌,
  if◌then◌else◌, includes,
}
use aimail.Email.{Email}
use aimail.Demo.Types.{
  Call, Failure, api_error, not_found, not_in_demo, ActionGroup, sending, drafting, privacy,
  mailbox, settings, other, AuditFields, AuditEvent, DemoState, Result, ok, err, M,
}
use aimail.Demo.Json.{param}

pub refused_not_found : Failure
refused_not_found = api_error 404 not_found

pub refused_not_in_demo : Failure
refused_not_in_demo = api_error 400 not_in_demo

-- `state.emails.find(…)` by the id.
unfoldable pub email_by_id : String → List Email → Option Email
email_by_id id emails = find (λ email. email.id === id) emails

unfoldable pub find_email : String → M Email
find_email id s = elim (email_by_id id s.emails) [
  | none ↦ (s, err refused_not_found)
  | some email ↦ (s, ok email)
]

-- `Object.assign(email, …)` on the email that `find` gave: the first with that id.
unfoldable pub assign : String → Email → List Email → List Email
assign id changed [] = []
assign id changed (email ∷ emails) =
    if email.id === id then changed ∷ emails else email ∷ assign id changed emails

-- What `change` gave is stored; it may throw, before anything is assigned.
unfoldable pub store_email : String → Result Email → M Email
store_email id (err e) s = (s, err e)
store_email id (ok changed) s = (record s { emails = assign id changed s.emails }, ok changed)

unfoldable pub change_found : String → (Email → Result Email) → Option Email → M Email
change_found id change none s = (s, err refused_not_found)
change_found id change (some email) s = store_email id (change email) s

-- Changes one email in place and answers with it.
unfoldable pub update_email : Call → (Email → Result Email) → M Email
update_email call change s = change_found (param call) change (email_by_id (param call) s.emails) s

pub demo_groups : List (ActionGroup × List String)
demo_groups =
    (
      sending,
      "approve_and_send" ∷ "follow_up_sent" ∷ "send_scheduled" ∷ "scheduled_send_cancelled"
          ∷ "compose_sent" ∷ [],
    )
    ∷ (
      drafting,
      "generate_draft" ∷ "refine_draft" ∷ "translate_email" ∷ "template_used" ∷ "compose_written"
          ∷ "compose_refined" ∷ "compose_deleted" ∷ [],
    )
    ∷ (privacy, "store_message" ∷ "confirm_sender" ∷ "scan_reading" ∷ [])
    ∷ (mailbox, "email_snoozed" ∷ "email_dismissed" ∷ "waiting_dismissed" ∷ [])
    ∷ (
      settings,
      "quiet_hours" ∷ "todo_settings" ∷ "holding_reply_settings" ∷ "template_saved"
          ∷ "template_deleted" ∷ "document_deleted" ∷ "writing_style_description"
          ∷ "writing_style_learning" ∷ "writing_style_example_added"
          ∷ "writing_style_deleted_example" ∷ "writing_style_hid_habit" ∷ "writing_style_deleted"
          ∷ [],
    )
    ∷ []

-- `GROUP_OF.get(action) ?? ActionGroup.Other`; no action stands in two groups.
pub group_of : String → ActionGroup
group_of action = first_with demo_groups
  where
    first_with : List (ActionGroup × List String) → ActionGroup
    first_with [] = other
    first_with ((group, actions) ∷ groups) =
        if includes actions action then group else first_with groups

-- The row that `record` adds.
unfoldable pub row : String → AuditFields → ℕ → DemoState → AuditEvent
row action fields at s = record {
  number = length s.audit + 1;
  action = action;
  group = group_of action;
  created_at = at;
  fields = fields;
  success = true;
}

-- `record`.
unfoldable pub record_row : String → AuditFields → ℕ → DemoState → DemoState
record_row action fields at s = record s { audit = s.audit ++ row action fields at s ∷ [] }

-- `record` behind a change that may have thrown, and the email as the answer.
unfoldable pub then_record :
    String → (Email → AuditFields) → ℕ → DemoState × Result Email → DemoState × Result Email
then_record action fields at (s, err e) = (s, err e)
then_record action fields at (s, ok email) = (record_row action (fields email) at s, ok email)
