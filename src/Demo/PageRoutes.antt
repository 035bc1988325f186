-- ===== src/Demo/PageRoutes.antt =====
-- demo/pages.ts: what every page route does.
use aimail.Base.{
  Bool, true, false, true, false, Option, none, some, [], ◌∷◌, ◌++◌, map, Text, length, is_some,
  leb, if◌then◌else◌,
}
use aimail.Email.{Email}
use aimail.Demo.Types.{
  Call, Value, text, api_error, too_many_examples, words, count, truth, DemoState, Result, ok, err,
  M,
}
use aimail.Demo.Json.{param, field, string_or_empty, string_of_field}
use aimail.Demo.State.{refused_not_found, refused_not_in_demo, email_by_id, record_row}
use aimail.Demo.PageTypes.{PageData, Template, StyleExample}
use aimail.Demo.Todo.{todo, effective}
use aimail.Demo.Templates.{template_by_id, assign_template, template_from, fill_template}
use aimail.Demo.Documents.{document_summary, document_by_id, chunk_total, new_document, paragraphs}
use aimail.Demo.Settings.{
  merged, holding_reply_error, quiet_hours_from, scan_mode, is_truthy, writing_style, change_style,
  source_word, example_of, with_example, without_example, without_habit,
}
use aimail.Demo.Trail.{chained_audit}
use aimail.Demo.AuditPage.{trail_page}
use aimail.Demo.Pages

module _ (given : PageData) where
  -- A follow-up draft is prepared, or it is not found.
  unfoldable pub follow_up_of : Email → M Pages.PageAnswer
  follow_up_of email s =
      Pages.when_found (given.follow_ups email.id)
        (λ draft u. (u, ok (Pages.follow_up_draft draft email.details))) s

  -- A template is filled in for an email, and marked as used.
  unfoldable pub use_for : Call → Template → Email → M Pages.PageAnswer
  use_for call template email s = (
    record_row "template_used" (("template", words template.id) ∷ ("mode", words "insert") ∷ [])
        call.now
        (record s {
          templates =
              assign_template (param call) (record template { last_used_at = some call.now })
                s.templates;
        }),
    ok (Pages.filled (fill_template given template email call.now)),
  )

  unfoldable pub use_found : Call → Template → M Pages.PageAnswer
  use_found call template s =
      Pages.when_found (Pages.email_named (string_of_field (field "emailId" call)) s)
        (use_for call template) s

  unfoldable pub save_new_template : Call → Template → M Pages.PageAnswer
  save_new_template call template s =
      Pages.template_saved call template (s.templates ++ template ∷ []) s

  -- `addDocument`.
  unfoldable pub document_added : Call → Text → M Pages.PageAnswer
  document_added call content s = (
    record s {
      documents =
          s.documents
          ++ new_document (given.new_document call.now) (string_or_empty (field "title" call))
              content
            ∷ [];
    },
    ok (Pages.chunk_count (length (paragraphs content))),
  )

  unfoldable pub example_added : Call → StyleExample → M Pages.PageAnswer
  example_added call example s = Pages.styled (
      change_style "writing_style_example_added"
        (("source", words (source_word example.source)) ∷ []) call.now (with_example example) s)

  -- Only a reply that went out can be an example.
  unfoldable pub example_from : Call → Email → M Pages.PageAnswer
  example_from call email s =
      if is_some email.sent_at
      then example_added call (example_of given.new_example call (some email)) s
      else (s, err refused_not_found)

  unfoldable pub example_by : Call → Option Value → M Pages.PageAnswer
  example_by call (some (text id)) s =
      Pages.when_found (Pages.email_named id s) (example_from call) s
  example_by call _ s = example_added call (example_of given.new_example call none) s

  -- `addExample`.
  unfoldable pub add_example_to : Call → M Pages.PageAnswer
  add_example_to call s =
      if leb (writing_style s).max_examples (length (writing_style s).examples)
      then (s, err (api_error 400 too_many_examples))
      else example_by call (field "emailId" call) s

  unfoldable pub show_quiet_hours : DemoState → Pages.PageAnswer
  show_quiet_hours s = Pages.quiet_hours given.company (effective given s) s.personal_quiet_hours

  unfoldable pub answer_quiet_hours : DemoState → DemoState × Result Pages.PageAnswer
  answer_quiet_hours s = (s, ok (show_quiet_hours s))

  unfoldable pub show_trail : Call → Bool → M Pages.PageAnswer
  show_trail call false s = (s, err refused_not_in_demo)
  show_trail call true s =
      (s, ok (Pages.trail_shown (trail_page given.read_number call (chained_audit given.sha256 s))))

  -- The handlers of `PAGE_ROUTES`.
  unfoldable pub handle_page : Pages.PageRoute → Call → M Pages.PageAnswer
  handle_page Pages.todo_page call s = (s, ok (Pages.todo_shown (todo given s call.now)))
  handle_page Pages.dismiss call s =
      Pages.when_found (email_by_id (param call) s.emails) (Pages.mark_dismissed call true) s
  handle_page Pages.undismiss call s =
      Pages.when_found (email_by_id (param call) s.emails) (Pages.mark_dismissed call false) s
  handle_page Pages.stop_waiting call s =
      Pages.when_found (Pages.email_of_sent (param call) s) (Pages.mark_not_waiting call true) s
  handle_page Pages.wait_again call s =
      Pages.when_found (Pages.email_of_sent (param call) s) (Pages.mark_not_waiting call false) s
  handle_page Pages.follow_up call s =
      Pages.when_found (Pages.email_of_sent (param call) s) follow_up_of s
  handle_page Pages.send_follow_up call s =
      Pages.when_found (Pages.email_of_sent (param call) s) (Pages.followed_up call) s
  handle_page (Pages.todo_settings n) call s =
      Pages.set_days call (Pages.days_or n s.waiting_days) s
  handle_page Pages.audit_trail call s = show_trail call given.can_hash s
  handle_page Pages.template_list call s = (s, ok (Pages.template_rows s.templates))
  handle_page Pages.save_template call s =
      save_new_template call (template_from call (given.new_template call.now)) s
  handle_page Pages.change_template call s =
      Pages.when_found (template_by_id (param call) s.templates) (Pages.put_template call) s
  handle_page Pages.remove_template call s =
      Pages.when_found (template_by_id (param call) s.templates) (Pages.template_removed call) s
  handle_page Pages.use_template call s =
      Pages.when_found (template_by_id (param call) s.templates) (use_found call) s
  handle_page Pages.document_list call s =
      (s, ok (Pages.document_rows (map document_summary s.documents)))
  handle_page Pages.get_document call s =
      Pages.when_found (document_by_id (param call) s.documents)
        (λ document u. (u, ok (Pages.one_document document))) s
  handle_page Pages.remove_document call s =
      Pages.when_found (document_by_id (param call) s.documents) (Pages.document_removed call) s
  handle_page Pages.add_document call s =
      document_added call (string_or_empty (field "text" call)) s
  handle_page Pages.system_info call s =
      (s, ok (Pages.totals (length s.documents) (chunk_total s.documents)))
  handle_page Pages.get_holding_reply call s = (s, ok (Pages.holding_reply s.holding_reply))
  handle_page (Pages.put_holding_reply change) call s =
      Pages.holding_reply_put call (holding_reply_error (merged s.holding_reply change))
        (merged s.holding_reply change) s
  handle_page Pages.get_scan_reading call s = (s, ok (Pages.scan_reading s.scan_reading))
  handle_page Pages.put_scan_reading call s =
      Pages.scan_reading_put call (record s.scan_reading { mode = scan_mode (field "mode" call) }) s
  handle_page Pages.get_quiet_hours call s = answer_quiet_hours s
  handle_page (Pages.put_quiet_hours change) call s = answer_quiet_hours (
      record_row "quiet_hours" (("personal", truth true) ∷ []) call.now
        (record s { personal_quiet_hours = some (quiet_hours_from given.company change) }))
  handle_page Pages.drop_quiet_hours call s = answer_quiet_hours (
      record_row "quiet_hours" (("personal", truth false) ∷ []) call.now
        (record s { personal_quiet_hours = none }))
  handle_page Pages.get_style call s = Pages.styled s
  handle_page Pages.describe_style call s =
      let description = string_or_empty (field "description" call) in
      Pages.styled (
        change_style "writing_style_description" (("chars", count (length description)) ∷ [])
          call.now (λ style. record style { description = description }) s)
  handle_page Pages.teach_style call s =
      let is_on = is_truthy (field "enabled" call) in
      Pages.styled (
        change_style "writing_style_learning" (("enabled", truth is_on) ∷ []) call.now
          (λ style. record style { learning = is_on }) s)
  handle_page Pages.add_example call s = add_example_to call s
  handle_page Pages.remove_example call s = Pages.done (
      change_style "writing_style_deleted_example" (("item", words (param call)) ∷ []) call.now
        (without_example (param call)) s)
  handle_page Pages.hide_habit call s = Pages.done (
      change_style "writing_style_hid_habit" (("item", words (param call)) ∷ []) call.now
        (without_habit (param call)) s)
  handle_page Pages.drop_style call s =
      Pages.done
        (record_row "writing_style_deleted" [] call.now (record s { writing_style = none }))
