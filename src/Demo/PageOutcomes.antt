-- ===== src/Demo/PageOutcomes.antt =====
-- demo/pages.ts: what a page route may leave behind, refused or answered.
use aimail.Base.{
  Bool, true, false, ℕ, Bool, Option, none, some, [], ◌∷◌, ◌++◌, String, ◌≡◌, refl, ◌⊎◌, inl, inr,
  Bool-cases, leb, length, is_some,
}
use aimail.Email.{Email}
use aimail.Demo.Types.{
  Call, Failure, Value, null, flag, text, array, AuditFields, DemoState, Result, ok, err,
  ApiErrorCode,
}
use aimail.Demo.Json.{param}
use aimail.Demo.State.{refused_not_found, row, record_row, email_by_id}
use aimail.Demo.PageTypes.{PageData, Template, HoldingReplySettings, StyleExample}
use aimail.Demo.Settings.{change_style, writing_style}
use aimail.Demo.Templates.{template_by_id}
use aimail.Demo.Documents.{document_by_id}
use aimail.Demo.Pages
use aimail.Demo.Pages.{PageRoute, PageAnswer, when_found, email_of_sent, email_named}
use aimail.Demo.PageRoutes

-- The mailbox and Compose are as they were, and the trail has at most one more row.
pub record Quiet (s u : DemoState) : Type 0 where
  pub started : u.start ≡ s.start
  pub mailbox : u.emails ≡ s.emails
  pub written : u.compose_drafts ≡ s.compose_drafts
  pub trail :
      (u.audit ≡ s.audit)
      ⊎ ((action : String) × (fields : AuditFields) × (at : ℕ) × (u.audit
            ≡ s.audit ++ row action fields at s ∷ []))

-- A call is refused with nothing changed, or answered.
pub data PageOutcome (s : DemoState) : DemoState × Result PageAnswer → Type 0 where
  refused : (e : Failure) → PageOutcome s (s, err e)
  answered : (u : DemoState) (a : PageAnswer) → Quiet s u → PageOutcome s (u, ok a)

unchanged : (s : DemoState) (a : PageAnswer) → PageOutcome s (s, ok a)
unchanged s a =
    answered s a (record { started = refl; mailbox = refl; written = refl; trail = inl refl })

when_found-PageOutcome {ℓ} :
    {A : Type ℓ} (s : DemoState) (o : Option A)
    (next : A → DemoState → DemoState × Result PageAnswer)
    → ((a : A) → PageOutcome s (next a s))
    → PageOutcome s (when_found o next s)
unfolding when_found
when_found-PageOutcome s none next goes = refused refused_not_found
when_found-PageOutcome s (some a) next goes = goes a

module _ (given : PageData) (call : Call) (s : DemoState) where
  abbrev Good : DemoState × Result PageAnswer → Type 0
  Good = PageOutcome s

  -- A row behind a change of the pages' own parts.
  one_row :
      (action : String) (fields : AuditFields) (at : ℕ) (u : DemoState) (a : PageAnswer)
      → u.start ≡ s.start
      → u.emails ≡ s.emails
      → u.compose_drafts ≡ s.compose_drafts
      → u.audit ≡ s.audit
      → Good (record_row action fields at u, ok a)
  unfolding record_row row
  one_row action fields at u a started mailbox written trail = answered _ _ (record {
    started = started;
    mailbox = mailbox;
    written = written;
    trail = inr (action, fields, at, rw trail refl);
  })

  follow_up-Good : (email : Email) → Good (PageRoutes.follow_up_of given email s)
  unfolding PageRoutes.follow_up_of
  follow_up-Good email =
      when_found-PageOutcome s (given.follow_ups email.id) _ λ draft. unchanged s _

  use-Good : (template : Template) → Good (PageRoutes.use_found given call template s)
  unfolding PageRoutes.use_found PageRoutes.use_for
  use-Good template =
      when_found-PageOutcome s (email_named _ s) _ λ email. one_row _ _ _ _ _ refl refl refl refl

  example_added-Good :
      (example : StyleExample) → Good (PageRoutes.example_added given call example s)
  unfolding PageRoutes.example_added Pages.styled change_style
  example_added-Good example = one_row _ _ _ _ _ refl refl refl refl

  example_from-Good : (email : Email) → Good (PageRoutes.example_from given call email s)
  unfolding PageRoutes.example_from
  example_from-Good email = elim (Bool-cases (is_some email.sent_at)) [
    | inl e ↦ rw e (example_added-Good _)
    | inr e ↦ rw e (refused refused_not_found)
  ]

  example_by-Good : (value : Option Value) → Good (PageRoutes.example_by given call value s)
  unfolding PageRoutes.example_by
  example_by-Good none = example_added-Good _
  example_by-Good (some null) = example_added-Good _
  example_by-Good (some (flag b)) = example_added-Good _
  example_by-Good (some (array values)) = example_added-Good _
  example_by-Good (some (text id)) = when_found-PageOutcome s (email_named id s) _ example_from-Good

  add_example-Good : Good (PageRoutes.add_example_to given call s)
  unfolding PageRoutes.add_example_to
  add_example-Good = elim (Bool-cases (is_full)) [
    | inl e ↦ rw e (refused _)
    | inr e ↦ rw e (example_by-Good _)
  ]
    where
      is_full : Bool
      is_full = leb (writing_style s).max_examples (length (writing_style s).examples)

  holding_reply-Good :
      (error : Option ApiErrorCode) (next : HoldingReplySettings)
      → Good (Pages.holding_reply_put call error next s)
  unfolding Pages.holding_reply_put
  holding_reply-Good (some code) next = refused _
  holding_reply-Good none next = one_row _ _ _ _ _ refl refl refl refl

  trail-Good : (b : Bool) → Good (PageRoutes.show_trail given call b s)
  unfolding PageRoutes.show_trail
  trail-Good true = unchanged s _
  trail-Good false = refused _

-- A page route is refused with nothing changed at all; or it is answered, the mailbox and Compose
-- are as they were, and the trail is as it was with at most one row more at its end.
pub handle_page-Outcome :
    (given : PageData) (route : PageRoute) (call : Call) (s : DemoState)
    → PageOutcome s (PageRoutes.handle_page given route call s)
unfolding PageRoutes.handle_page Pages.mark_dismissed Pages.mark_not_waiting Pages.followed_up
    Pages.set_days PageRoutes.save_new_template Pages.put_template Pages.template_saved
    Pages.template_removed Pages.document_removed Pages.scan_reading_put Pages.styled Pages.done
    PageRoutes.document_added PageRoutes.answer_quiet_hours change_style
handle_page-Outcome given Pages.todo_page call s = unchanged s _
handle_page-Outcome given Pages.dismiss call s =
    when_found-PageOutcome s (email_by_id (param call) s.emails) _
      λ email. one_row given call s _ _ _ _ _ refl refl refl refl
handle_page-Outcome given Pages.undismiss call s =
    when_found-PageOutcome s (email_by_id (param call) s.emails) _
      λ email. one_row given call s _ _ _ _ _ refl refl refl refl
handle_page-Outcome given Pages.stop_waiting call s =
    when_found-PageOutcome s (email_of_sent (param call) s) _
      λ email. one_row given call s _ _ _ _ _ refl refl refl refl
handle_page-Outcome given Pages.wait_again call s =
    when_found-PageOutcome s (email_of_sent (param call) s) _
      λ email. one_row given call s _ _ _ _ _ refl refl refl refl
handle_page-Outcome given Pages.follow_up call s =
    when_found-PageOutcome s (email_of_sent (param call) s) _ (follow_up-Good given call s)
handle_page-Outcome given Pages.send_follow_up call s =
    when_found-PageOutcome s (email_of_sent (param call) s) _
      λ email. one_row given call s _ _ _ _ _ refl refl refl refl
handle_page-Outcome given (Pages.todo_settings n) call s =
    one_row given call s _ _ _ _ _ refl refl refl refl
handle_page-Outcome given Pages.audit_trail call s = trail-Good given call s given.can_hash
handle_page-Outcome given Pages.template_list call s = unchanged s _
handle_page-Outcome given Pages.save_template call s =
    one_row given call s _ _ _ _ _ refl refl refl refl
handle_page-Outcome given Pages.change_template call s =
    when_found-PageOutcome s (template_by_id (param call) s.templates) _
      λ template. one_row given call s _ _ _ _ _ refl refl refl refl
handle_page-Outcome given Pages.remove_template call s =
    when_found-PageOutcome s (template_by_id (param call) s.templates) _
      λ template. one_row given call s _ _ _ _ _ refl refl refl refl
handle_page-Outcome given Pages.use_template call s =
    when_found-PageOutcome s (template_by_id (param call) s.templates) _ (use-Good given call s)
handle_page-Outcome given Pages.document_list call s = unchanged s _
handle_page-Outcome given Pages.get_document call s =
    when_found-PageOutcome s (document_by_id (param call) s.documents) _ λ document. unchanged s _
handle_page-Outcome given Pages.remove_document call s =
    when_found-PageOutcome s (document_by_id (param call) s.documents) _
      λ document. one_row given call s _ _ _ _ _ refl refl refl refl
handle_page-Outcome given Pages.add_document call s =
    answered _ _ (record { started = refl; mailbox = refl; written = refl; trail = inl refl })
handle_page-Outcome given Pages.system_info call s = unchanged s _
handle_page-Outcome given Pages.get_holding_reply call s = unchanged s _
handle_page-Outcome given (Pages.put_holding_reply change) call s =
    holding_reply-Good given call s _ _
handle_page-Outcome given Pages.get_scan_reading call s = unchanged s _
handle_page-Outcome given Pages.put_scan_reading call s =
    one_row given call s _ _ _ _ _ refl refl refl refl
handle_page-Outcome given Pages.get_quiet_hours call s = unchanged s _
handle_page-Outcome given (Pages.put_quiet_hours change) call s =
    one_row given call s _ _ _ _ _ refl refl refl refl
handle_page-Outcome given Pages.drop_quiet_hours call s =
    one_row given call s _ _ _ _ _ refl refl refl refl
handle_page-Outcome given Pages.get_style call s = unchanged s _
handle_page-Outcome given Pages.describe_style call s =
    one_row given call s _ _ _ _ _ refl refl refl refl
handle_page-Outcome given Pages.teach_style call s =
    one_row given call s _ _ _ _ _ refl refl refl refl
handle_page-Outcome given Pages.add_example call s = add_example-Good given call s
handle_page-Outcome given Pages.remove_example call s =
    one_row given call s _ _ _ _ _ refl refl refl refl
handle_page-Outcome given Pages.hide_habit call s =
    one_row given call s _ _ _ _ _ refl refl refl refl
handle_page-Outcome given Pages.drop_style call s =
    one_row given call s _ _ _ _ _ refl refl refl refl
