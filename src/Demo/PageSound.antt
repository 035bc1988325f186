-- ===== src/Demo/PageSound.antt =====
-- demo/pages.ts: what stays true of the settings and the documents under every page route.
use aimail.Base.{
  Bool, true, false, ◌≤◌, Bool, false, Option, none, some, [], ◌∷◌, String, length, All, All-append,
  length-append, length-filter-le, ◌≡◌, refl, inl, inr, Bool-cases, leb, is_some, arith,
}
use aimail.Email.{Email}
use aimail.Demo.Types.{
  Call, Value, null, flag, text, array, DemoState, Result, AuditFields, ApiErrorCode,
}
use aimail.Demo.Json.{param, field}
use aimail.Demo.State.{record_row, email_by_id}
use aimail.Demo.PageTypes.{PageData, Template, HoldingReplySettings, StyleExample, WritingStyle}
use aimail.Demo.Templates.{template_by_id}
use aimail.Demo.Documents.{document_by_id}
use aimail.Demo.Settings.{
  holding_reply_error, merged, writing_style, change_style, with_example, without_example,
  without_habit,
}
use aimail.Demo.Pages
use aimail.Demo.Pages.{PageRoute, PageAnswer, when_found, email_of_sent, email_named}
use aimail.Demo.PageRoutes
use aimail.Demo.Soundness.{
  IsCounted, IsSound, new_document-IsCounted, without_document-IsCounted, LeavesSound,
  when_found-Sound,
}

module _ (given : PageData) (call : Call) (s : DemoState) (sound : IsSound s) where
  -- A change of none of the three.
  elsewhere :
      (u : DemoState)
      → u.documents ≡ s.documents
      → u.holding_reply ≡ s.holding_reply
      → u.writing_style ≡ s.writing_style
      → IsSound u
  unfolding writing_style
  elsewhere u documents reply style = record {
    documents_counted = rw documents sound.documents_counted;
    reply_passes = rw reply sound.reply_passes;
    examples_fit = rw style sound.examples_fit;
  }

  -- A change of the style that keeps its examples within the bound.
  restyled :
      (action : String) (fields : AuditFields) (change : WritingStyle → WritingStyle)
      → length (change (writing_style s)).examples ≤ (change (writing_style s)).max_examples
      → IsSound (change_style action fields call.now change s)
  unfolding change_style record_row writing_style
  restyled action fields change fits = record {
    documents_counted = sound.documents_counted;
    reply_passes = sound.reply_passes;
    examples_fit = fits;
  }

  redocumented :
      (u : DemoState)
      → All IsCounted u.documents
      → u.holding_reply ≡ s.holding_reply
      → u.writing_style ≡ s.writing_style
      → IsSound u
  unfolding writing_style
  redocumented u counted reply style = record {
    documents_counted = counted;
    reply_passes = rw reply sound.reply_passes;
    examples_fit = rw style sound.examples_fit;
  }

  holding_reply-Sound :
      (error : Option ApiErrorCode) (next : HoldingReplySettings)
      → holding_reply_error next ≡ error
      → LeavesSound (Pages.holding_reply_put call error next s)
  unfolding Pages.holding_reply_put LeavesSound record_row writing_style
  holding_reply-Sound (some code) next e = sound
  holding_reply-Sound none next e = record {
    documents_counted = sound.documents_counted;
    reply_passes = e;
    examples_fit = sound.examples_fit;
  }

  example_added-Sound :
      (example : StyleExample)
      → leb (writing_style s).max_examples (length (writing_style s).examples) ≡ false
      → LeavesSound (PageRoutes.example_added given call example s)
  unfolding PageRoutes.example_added Pages.styled LeavesSound with_example
  example_added-Sound example room =
      restyled _ _ (with_example example)
        (ground (arith, room, length-append (writing_style s).examples (example ∷ [])))

  example_from-Sound :
      (email : Email)
      → leb (writing_style s).max_examples (length (writing_style s).examples) ≡ false
      → LeavesSound (PageRoutes.example_from given call email s)
  unfolding PageRoutes.example_from LeavesSound
  example_from-Sound email room = elim (Bool-cases (is_some email.sent_at)) [
    | inl e ↦ rw e (example_added-Sound _ room)
    | inr e ↦ rw e sound
  ]

  example_by-Sound :
      (value : Option Value)
      → leb (writing_style s).max_examples (length (writing_style s).examples) ≡ false
      → LeavesSound (PageRoutes.example_by given call value s)
  unfolding PageRoutes.example_by
  example_by-Sound none room = example_added-Sound _ room
  example_by-Sound (some null) room = example_added-Sound _ room
  example_by-Sound (some (flag b)) room = example_added-Sound _ room
  example_by-Sound (some (array values)) room = example_added-Sound _ room
  example_by-Sound (some (text id)) room =
      when_found-Sound s (email_named id s) _ sound λ email. example_from-Sound email room

  add_example-Sound : LeavesSound (PageRoutes.add_example_to given call s)
  unfolding PageRoutes.add_example_to LeavesSound
  add_example-Sound = elim (Bool-cases is_full) [
    | inl e ↦ rw e sound
    | inr e ↦ rw e (example_by-Sound (field "emailId" call) e)
  ]
    where
      is_full : Bool
      is_full = leb (writing_style s).max_examples (length (writing_style s).examples)

  use-Sound : (template : Template) → LeavesSound (PageRoutes.use_found given call template s)
  unfolding PageRoutes.use_found PageRoutes.use_for LeavesSound record_row
  use-Sound template =
      when_found-Sound s (email_named _ s) _ sound λ email. elsewhere _ refl refl refl

  follow_up-Sound : (email : Email) → LeavesSound (PageRoutes.follow_up_of given email s)
  unfolding PageRoutes.follow_up_of LeavesSound
  follow_up-Sound email = when_found-Sound s (given.follow_ups email.id) _ sound λ draft. sound

  trail-Sound : (b : Bool) → LeavesSound (PageRoutes.show_trail given call b s)
  unfolding PageRoutes.show_trail LeavesSound
  trail-Sound true = sound
  trail-Sound false = sound

  -- The email routes of the pages, and the others that change none of the three.
  aside :
      {A : Type 0} (o : Option A) (next : A → DemoState → DemoState × Result PageAnswer)
      → ((a : A) → (next a s).0.documents ≡ s.documents)
      → ((a : A) → (next a s).0.holding_reply ≡ s.holding_reply)
      → ((a : A) → (next a s).0.writing_style ≡ s.writing_style)
      → LeavesSound (when_found o next s)
  unfolding LeavesSound
  aside o next documents reply style =
      when_found-Sound s o next sound λ a. elsewhere _ (documents a) (reply a) (style a)

-- Under every page route, every document keeps the count of its chunks, the holding reply in force
-- stays one that may be saved, and the writing style has no more examples than it may have.
pub handle_page-IsSound :
    (given : PageData) (route : PageRoute) (call : Call) (s : DemoState)
    → IsSound s
    → IsSound (PageRoutes.handle_page given route call s).0
unfolding PageRoutes.handle_page Pages.mark_dismissed Pages.mark_not_waiting Pages.followed_up
    Pages.set_days PageRoutes.save_new_template Pages.put_template Pages.template_saved
    Pages.template_removed Pages.document_removed Pages.scan_reading_put Pages.styled Pages.done
    PageRoutes.document_added PageRoutes.answer_quiet_hours record_row LeavesSound writing_style
    without_example without_habit
handle_page-IsSound given Pages.todo_page call s sound = sound
handle_page-IsSound given Pages.dismiss call s sound =
    aside given call s sound (email_by_id (param call) s.emails) _ (λ e. refl) (λ e. refl) λ e. refl
handle_page-IsSound given Pages.undismiss call s sound =
    aside given call s sound (email_by_id (param call) s.emails) _ (λ e. refl) (λ e. refl) λ e. refl
handle_page-IsSound given Pages.stop_waiting call s sound =
    aside given call s sound (email_of_sent (param call) s) _ (λ e. refl) (λ e. refl) λ e. refl
handle_page-IsSound given Pages.wait_again call s sound =
    aside given call s sound (email_of_sent (param call) s) _ (λ e. refl) (λ e. refl) λ e. refl
handle_page-IsSound given Pages.follow_up call s sound =
    when_found-Sound s (email_of_sent (param call) s) _ sound (follow_up-Sound given call s sound)
handle_page-IsSound given Pages.send_follow_up call s sound =
    aside given call s sound (email_of_sent (param call) s) _ (λ e. refl) (λ e. refl) λ e. refl
handle_page-IsSound given (Pages.todo_settings n) call s sound =
    elsewhere given call s sound _ refl refl refl
handle_page-IsSound given Pages.audit_trail call s sound =
    trail-Sound given call s sound given.can_hash
handle_page-IsSound given Pages.template_list call s sound = sound
handle_page-IsSound given Pages.save_template call s sound =
    elsewhere given call s sound _ refl refl refl
handle_page-IsSound given Pages.change_template call s sound =
    aside given call s sound (template_by_id (param call) s.templates) _ (λ t. refl) (λ t. refl)
      λ t. refl
handle_page-IsSound given Pages.remove_template call s sound =
    aside given call s sound (template_by_id (param call) s.templates) _ (λ t. refl) (λ t. refl)
      λ t. refl
handle_page-IsSound given Pages.use_template call s sound =
    when_found-Sound s (template_by_id (param call) s.templates) _ sound
      (use-Sound given call s sound)
handle_page-IsSound given Pages.document_list call s sound = sound
handle_page-IsSound given Pages.get_document call s sound =
    when_found-Sound s (document_by_id (param call) s.documents) _ sound λ document. sound
handle_page-IsSound given Pages.remove_document call s sound =
    when_found-Sound s (document_by_id (param call) s.documents) _ sound λ document.
      redocumented given call s sound _
        (without_document-IsCounted (param call) s.documents sound.documents_counted) refl refl
handle_page-IsSound given Pages.add_document call s sound =
    redocumented given call s sound _
      (All-append IsCounted s.documents _ sound.documents_counted
        (new_document-IsCounted _ _ _, tt))
      refl refl
handle_page-IsSound given Pages.system_info call s sound = sound
handle_page-IsSound given Pages.get_holding_reply call s sound = sound
handle_page-IsSound given (Pages.put_holding_reply change) call s sound =
    holding_reply-Sound given call s sound _ (merged s.holding_reply change) refl
handle_page-IsSound given Pages.get_scan_reading call s sound = sound
handle_page-IsSound given Pages.put_scan_reading call s sound =
    elsewhere given call s sound _ refl refl refl
handle_page-IsSound given Pages.get_quiet_hours call s sound = sound
handle_page-IsSound given (Pages.put_quiet_hours change) call s sound =
    elsewhere given call s sound _ refl refl refl
handle_page-IsSound given Pages.drop_quiet_hours call s sound =
    elsewhere given call s sound _ refl refl refl
handle_page-IsSound given Pages.get_style call s sound = sound
handle_page-IsSound given Pages.describe_style call s sound =
    restyled given call s sound _ _ _ sound.examples_fit
handle_page-IsSound given Pages.teach_style call s sound =
    restyled given call s sound _ _ _ sound.examples_fit
handle_page-IsSound given Pages.add_example call s sound = add_example-Sound given call s sound
handle_page-IsSound given Pages.remove_example call s sound =
    restyled given call s sound _ _ _
      (omega (arith, sound.examples_fit, length-filter-le _ (writing_style s).examples))
handle_page-IsSound given Pages.hide_habit call s sound =
    restyled given call s sound _ _ _ sound.examples_fit
handle_page-IsSound given Pages.drop_style call s sound = record {
  documents_counted = sound.documents_counted;
  reply_passes = sound.reply_passes;
  examples_fit = omega arith;
}
