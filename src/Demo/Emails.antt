-- ===== src/Demo/Emails.antt =====
-- demo/request.ts: the handlers of the email routes.
use aimail.Base.{
  Bool, true, false, Option, none, some, List, [], ◌∷◌, String, string_eq, Text, text_eq_instance,
  is_empty, length, filter, find, ◌===◌, if◌then◌else◌,
}
use aimail.Email.{Email, Tone}
use aimail.Demo.Types.{
  Call, words, letters, count, thousandths, truth, AuditFields, DemoState, DemoData,
  PreparedAnswers, Result, ok, err, M,
}
use aimail.Demo.Json.{param, field}
use aimail.Demo.State.{
  refused_not_found, refused_not_in_demo, update_email, record_row, then_record,
}
use aimail.Demo.Changes.{
  is_due, newest_first, asked_tone, needs_review, tone_word, language_of, read_unless_kept,
  sent_email, draft_in_tone, refined, scheduled_email, snoozed_email, drafted, regenerated_email,
  confirmed_email,
}

-- What a handler answers with.
pub data Answer : Type 0 where
  done : Answer
  one : Email → Answer
  page : List Email → Answer
  translation : Text → Text → Answer

-- The routes of `EMAIL_ROUTES` about emails, in order.
pub data EmailRoute : Type 0 where
  list by_thread get_email unread send schedule cancel_schedule : EmailRoute
  snooze unsnooze regenerate refine translate confirm_sender : EmailRoute

-- The rows' fields.
pub message : Email → AuditFields
message email = ("message", words email.id) ∷ []

pub generated_fields : Tone → Email → AuditFields
generated_fields tone email =
    ("message", words email.id)
    ∷ ("tone", words (tone_word tone))
    ∷ ("confidence", thousandths email.critic_confidence)
    ∷ ("review", truth (needs_review email))
    ∷ []

unfoldable pub answer_one : DemoState × Result Email → DemoState × Result Answer
answer_one (s, err e) = (s, err e)
answer_one (s, ok email) = (s, ok (one email))

unfoldable pub answer_done : DemoState × Result Email → DemoState × Result Answer
answer_done (s, err e) = (s, err e)
answer_done (s, ok email) = (s, ok done)

-- `if (!text) return notInDemo(endpoint)`, and what follows it.
unfoldable pub translated : Call → Text → Option Text → M Answer
translated call language none s = (s, err refused_not_in_demo)
translated call language (some t) s = if is_empty t then (s, err refused_not_in_demo) else (
  record_row "translate_email"
      (("message", words (param call)) ∷ ("language", letters language) ∷ []) call.now s,
  ok (translation language t),
)

-- `DEMO_ANSWERS[params[0]]?.translations[language]`.
pub prepared_translation : Text → Option PreparedAnswers → Option Text
prepared_translation language none = none
prepared_translation language (some answers) = answers.translations language

unfoldable pub found_one : DemoState → Option Email → DemoState × Result Answer
found_one s none = (s, err refused_not_found)
found_one s (some email) = (s, ok (one email))

unfoldable pub in_thread : String → Email → Bool
in_thread id email = elim email.thread_id [ none ↦ false | some thread ↦ thread === id ]

unfoldable pub regenerate_with : Call → Tone → Result Text → M Answer
regenerate_with call tone (err e) s = (s, err e)
regenerate_with call tone (ok draft) s = answer_one (
    then_record "generate_draft" (generated_fields tone) call.now
      (update_email call (λ email. ok (regenerated_email call tone draft email)) s))

unfoldable pub refine_with : Call → Result Text → M Answer
refine_with call (err e) s = (s, err e)
refine_with call (ok draft) s = answer_one (
    then_record "refine_draft"
      (λ email. ("message", words email.id) ∷ ("review", truth (needs_review email)) ∷ []) call.now
      (update_email call (λ email. ok (drafted call.now ("refine" ∷ "critic" ∷ []) draft email)) s))

module _ (given : DemoData) where
  unfoldable pub translate_into : Call → Option Text → M Answer
  translate_into call none s = (s, err refused_not_in_demo)
  translate_into call (some language) s =
      translated call language (prepared_translation language (given.answers (param call))) s

  -- The handlers of `EMAIL_ROUTES`.
  unfoldable pub handle : EmailRoute → Call → M Answer
  handle list call s =
      (s, ok (page (newest_first (filter (λ email. is_due email.snoozed_until call.now) s.emails))))
  handle by_thread call s = found_one s (find (in_thread (param call)) s.emails)
  handle get_email call s =
      answer_one (update_email call (λ email. ok (read_unless_kept call email)) s)
  handle unread call s =
      answer_done (update_email call (λ email. ok (record email { is_read = false })) s)
  handle send call s = answer_one (
      then_record "approve_and_send"
        (λ email. ("message", words email.id) ∷ ("restored", count (length email.details)) ∷ [])
        call.now (update_email call (λ email. ok (sent_email call email)) s))
  handle schedule call s = answer_one (
      then_record "send_scheduled" message call.now
        (update_email call (scheduled_email given call) s))
  handle cancel_schedule call s = answer_one (
      then_record "scheduled_send_cancelled"
        (λ email. ("message", words email.id) ∷ ("reason", words "cancelled") ∷ []) call.now
        (update_email call (λ email. ok (record email { scheduled_for = none })) s))
  handle snooze call s = answer_one (
      then_record "email_snoozed"
        (λ email. ("message", words email.id) ∷ ("snoozed", truth true) ∷ []) call.now
        (update_email call (snoozed_email given call) s))
  handle unsnooze call s = answer_one (
      then_record "email_snoozed"
        (λ email. ("message", words email.id) ∷ ("snoozed", truth false) ∷ []) call.now
        (update_email call (λ email. ok (record email { snoozed_until = none })) s))
  handle regenerate call s =
      regenerate_with call (asked_tone (field "tone" call))
        (draft_in_tone given call (asked_tone (field "tone" call)) s) s
  handle refine call s = refine_with call (refined given call) s
  handle translate call s = translate_into call (language_of (field "language" call)) s
  handle confirm_sender call s = answer_one (
      then_record "confirm_sender" message call.now
        (update_email call (λ email. ok (confirmed_email given call email)) s))
