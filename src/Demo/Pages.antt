-- ===== src/Demo/Pages.antt =====
-- demo/pages.ts: the handlers of `PAGE_ROUTES`. A body with numbers or objects comes with its route.
use aimail.Base.{
  ℕ, zero, suc, Bool, true, false, not, Option, none, some, List, [], ◌∷◌, Text, codes, text_eq,
  String, ◌===◌, string_eq, length, filter, find,
}
use aimail.Base.Maps.{put, delete}
use aimail.Details.{Detail}
use aimail.Email.{Email}
use aimail.Demo.Types.{
  Call, api_error, ApiErrorCode, words, count, truth, DemoState, Result, ok, err, M,
}
use aimail.Demo.Json.{param}
use aimail.Demo.State.{refused_not_found, record_row}
use aimail.Demo.PageTypes.{
  Template, DocumentDetail, HoldingReplySettings, QuietHours, ScanMode, checked, local, ScanReading,
  WritingStyle,
}
use aimail.Demo.Todo.{Todo, sent_id_of}
use aimail.Demo.AuditPage.{AuditTrail}
use aimail.Demo.Templates.{assign_template, template_from}
use aimail.Demo.Documents.{PolicyDocument, without_document}
use aimail.Demo.Settings.{HoldingReplyChange, QuietHoursChange, writing_style}

pub data PageRoute : Type 0 where
  todo_page dismiss undismiss stop_waiting wait_again follow_up send_follow_up : PageRoute
  audit_trail : PageRoute
  todo_settings : Option ℕ → PageRoute
  template_list save_template change_template remove_template use_template : PageRoute
  document_list get_document remove_document add_document system_info : PageRoute
  get_holding_reply : PageRoute
  put_holding_reply : HoldingReplyChange → PageRoute
  get_scan_reading put_scan_reading get_quiet_hours drop_quiet_hours : PageRoute
  put_quiet_hours : QuietHoursChange → PageRoute
  get_style describe_style teach_style add_example remove_example hide_habit drop_style : PageRoute

pub data PageAnswer : Type 0 where
  nothing : PageAnswer
  trail_shown : AuditTrail → PageAnswer
  todo_shown : Todo → PageAnswer
  follow_up_draft : Text → List Detail → PageAnswer
  days : ℕ → PageAnswer
  template_rows : List Template → PageAnswer
  one_template : Template → PageAnswer
  filled : Text → PageAnswer
  document_rows : List PolicyDocument → PageAnswer
  one_document : DocumentDetail → PageAnswer
  chunk_count : ℕ → PageAnswer
  totals : ℕ → ℕ → PageAnswer
  holding_reply : HoldingReplySettings → PageAnswer
  scan_reading : ScanReading → PageAnswer
  quiet_hours : QuietHours → QuietHours → Option QuietHours → PageAnswer
  style : WritingStyle → PageAnswer

-- `find(…) ?? notFound(endpoint)`, and what follows it.
unfoldable pub when_found {ℓ} : {A : Type ℓ} → Option A → (A → M PageAnswer) → M PageAnswer
when_found none next s = (s, err refused_not_found)
when_found (some a) next s = next a s

unfoldable pub email_of_sent : String → DemoState → Option Email
email_of_sent id s = find (λ email. sent_id_of email === id) s.emails

-- `findEmail` of an id that a body carries.
unfoldable pub email_named : Text → DemoState → Option Email
email_named id s = find (λ email. text_eq (codes email.id) id) s.emails

unfoldable pub put_or_delete : Bool → String → ℕ → List (String × ℕ) → List (String × ℕ)
put_or_delete true id now entries = put id now entries
put_or_delete false id now entries = delete id entries

unfoldable pub mark_dismissed : Call → Bool → Email → M PageAnswer
mark_dismissed call is_dismissed email s = (
  record_row "email_dismissed"
      (("message", words email.id) ∷ ("dismissed", truth is_dismissed) ∷ []) call.now
      (record s { dismissed = put_or_delete is_dismissed email.id call.now s.dismissed }),
  ok nothing,
)

unfoldable pub mark_not_waiting : Call → Bool → Email → M PageAnswer
mark_not_waiting call is_dismissed email s = (
  record_row "waiting_dismissed"
      (("sent", words (param call)) ∷ ("dismissed", truth is_dismissed) ∷ []) call.now
      (record s { not_waiting = put_or_delete is_dismissed (param call) call.now s.not_waiting }),
  ok nothing,
)

unfoldable pub followed_up : Call → Email → M PageAnswer
followed_up call email s = (
  record_row "follow_up_sent"
      (("message", words email.id) ∷ ("restored", count (length email.details)) ∷ []) call.now
      (record s { followed_up = put (param call) call.now s.followed_up }),
  ok nothing,
)

-- `Number(json.waitingDays) || state.waitingDays`.
unfoldable pub days_or : Option ℕ → ℕ → ℕ
days_or none stored = stored
days_or (some zero) stored = stored
days_or (some (suc n)) stored = suc n

unfoldable pub set_days : Call → ℕ → M PageAnswer
set_days call n s = (
  record_row "todo_settings" (("waiting_days", count n) ∷ []) call.now
      (record s { waiting_days = n }),
  ok (days n),
)

unfoldable pub template_saved : Call → Template → List Template → M PageAnswer
template_saved call template templates s = (
  record_row "template_saved" (("template", words template.id) ∷ []) call.now
      (record s { templates = templates }),
  ok (one_template template),
)

unfoldable pub put_template : Call → Template → M PageAnswer
put_template call template s =
    let changed : Template = record (template_from call template.id) {
      last_used_at = template.last_used_at;
    } in
    template_saved call changed (assign_template (param call) changed s.templates) s

unfoldable pub template_removed : Call → Template → M PageAnswer
template_removed call template s = (
  record_row "template_deleted" (("template", words (param call)) ∷ []) call.now
      (record s { templates = filter (λ other. not (other.id === param call)) s.templates }),
  ok nothing,
)

unfoldable pub document_removed : Call → DocumentDetail → M PageAnswer
document_removed call document s = (
  record_row "document_deleted" (("document", words (param call)) ∷ []) call.now
      (record s { documents = without_document (param call) s.documents }),
  ok nothing,
)

unfoldable pub holding_reply_put : Call → Option ApiErrorCode → HoldingReplySettings → M PageAnswer
holding_reply_put call (some refused) next s = (s, err (api_error 400 refused))
holding_reply_put call none next s = (
  record_row "holding_reply_settings" (("enabled", truth next.enabled) ∷ []) call.now
      (record s { holding_reply = next }),
  ok (holding_reply next),
)

unfoldable pub mode_word : ScanMode → String
mode_word checked = "checked"
mode_word local = "local"

unfoldable pub scan_reading_put : Call → ScanReading → M PageAnswer
scan_reading_put call next s = (
  record_row "scan_reading" (("mode", words (mode_word next.mode)) ∷ []) call.now
      (record s { scan_reading = next }),
  ok (scan_reading next),
)

-- The style after a change of it, as the answer.
unfoldable pub styled : DemoState → DemoState × Result PageAnswer
styled s = (s, ok (style (writing_style s)))

unfoldable pub done : DemoState → DemoState × Result PageAnswer
done s = (s, ok nothing)
