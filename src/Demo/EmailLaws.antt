-- ===== src/Demo/EmailLaws.antt =====
-- demo/request.ts: what a call of an email route changes, and what it answers with.
use aimail.Base.{
  ◌≢◌, ℕ, Option, none, some, [], ◌∷◌, String, ◌≡◌, refl, sym, ap, ◌∙◌, ◌≢◌, arith, Text,
}
use aimail.Email.{Email, Tone}
use aimail.Demo.Types.{Call, AuditFields, DemoState, DemoData, Result, ok, err}
use aimail.Demo.Json.{param}
use aimail.Demo.State.{email_by_id, record_row, then_record}
use aimail.Demo.Changes.{
  read_unless_kept, sent_email, with_time, scheduled_email, snoozed_email, drafted,
  regenerated_email, confirmed_email,
}
use aimail.Demo.Emails.{
  Answer, one, done, page, translation, prepared_translation, EmailRoute, list, by_thread,
  get_email, unread, send, schedule, cancel_schedule, snooze, unsnooze, regenerate, refine,
  translate, confirm_sender, answer_one, answer_done, translated, translate_into, regenerate_with,
  refine_with, found_one, handle,
}
use aimail.Demo.Outcomes.{
  Outcome, refused, answered, Allowed-refl, row-Allowed, KeepsId, Updated, unfound, stored,
  update_email-Updated, answer_one-Outcome, answer_done-Outcome, then_record-Outcome,
  email_by_id-assigned,
}

-- A change that only sets fields keeps the id.
ok-KeepsId :
    (change : Email → Email)
    → ((email : Email) → (change email).id ≡ email.id)
    → KeepsId (λ email. ok (change email))
unfolding KeepsId
ok-KeepsId change keeps email changed e = subst_id (ok-injective e)
  where
    ok-injective : ok (change email) ≡ ok changed → change email ≡ changed
    ok-injective e = cc

    subst_id : change email ≡ changed → changed.id ≡ email.id
    subst_id same = ap (λ (m : Email). m.id) (sym same) ∙ keeps email

with_time-KeepsId :
    (time : Result ℕ) (change : Email → ℕ → Email)
    → ((email : Email) (at : ℕ) → (change email at).id ≡ email.id)
    → KeepsId (λ email. with_time time (change email))
unfolding KeepsId with_time
with_time-KeepsId (err e) change keeps email changed h = cc
with_time-KeepsId (ok at) change keeps email changed h =
    ok-KeepsId (λ m. change m at) (λ m. keeps m at) email changed h

read-keeps : (call : Call) (email : Email) → (read_unless_kept call email).id ≡ email.id
unfolding read_unless_kept
read-keeps call email = ground arith

-- Of a call's end: an answer that is one email is the email that the demo has now.
unfoldable pub SaysStored : String → DemoState × Result Answer → Type 0
SaysStored id (u, err e) = Unit
SaysStored id (u, ok done) = Unit
SaysStored id (u, ok (one email)) = email_by_id id u.emails ≡ some email
SaysStored id (u, ok (page emails)) = Unit
SaysStored id (u, ok (translation language t)) = Unit

answer_one-SaysStored :
    (id : String) (s : DemoState) (r : DemoState × Result Email)
    → Updated id s r
    → SaysStored id (answer_one r)
unfolding answer_one SaysStored
answer_one-SaysStored id s _ (unfound e) = tt
answer_one-SaysStored id s _ (stored original changed found same) =
    email_by_id-assigned id changed original s.emails same found

answer_done-SaysStored :
    (id : String) (s : DemoState) (r : DemoState × Result Email)
    → Updated id s r
    → SaysStored id (answer_done r)
unfolding answer_done SaysStored
answer_done-SaysStored id s _ (unfound e) = tt
answer_done-SaysStored id s _ (stored original changed found same) = tt

then_record-SaysStored :
    (id : String) (s : DemoState) (action : String) (fields : Email → AuditFields) (at : ℕ)
    (r : DemoState × Result Email)
    → Updated id s r
    → SaysStored id (answer_one (then_record action fields at r))
unfolding answer_one then_record SaysStored record_row
then_record-SaysStored id s action fields at _ (unfound e) = tt
then_record-SaysStored id s action fields at _ (stored original changed found same) =
    email_by_id-assigned id changed original s.emails same found

module _ (given : DemoData) where
  translated-Outcome :
      (id : String) (call : Call) (language : Text) (o : Option Text) (s : DemoState)
      → Outcome id s (translated call language o s)
  unfolding translated
  translated-Outcome id call language none s = refused _
  translated-Outcome id call language (some []) s = refused _
  translated-Outcome id call language (some (c ∷ t)) s = answered _ _ (row-Allowed id s _ _ _)

  translate_into-Outcome :
      (id : String) (call : Call) (language : Option Text) (s : DemoState)
      → Outcome id s (translate_into given call language s)
  unfolding translate_into
  translate_into-Outcome id call none s = refused _
  translate_into-Outcome id call (some language) s = translated-Outcome id call language _ s

  regenerate_with-Outcome :
      (call : Call) (tone : Tone) (draft : Result Text) (s : DemoState)
      → Outcome (param call) s (regenerate_with call tone draft s)
  unfolding regenerate_with regenerated_email drafted
  regenerate_with-Outcome call tone (err e) s = refused e
  regenerate_with-Outcome call tone (ok draft) s =
      then_record-Outcome _ s _ _ _ _ (update_email-Updated call _ s (ok-KeepsId _ λ email. refl))

  refine_with-Outcome :
      (call : Call) (draft : Result Text) (s : DemoState)
      → Outcome (param call) s (refine_with call draft s)
  unfolding refine_with drafted
  refine_with-Outcome call (err e) s = refused e
  refine_with-Outcome call (ok draft) s =
      then_record-Outcome _ s _ _ _ _ (update_email-Updated call _ s (ok-KeepsId _ λ email. refl))

  found_one-Outcome :
      (id : String) (s : DemoState) (o : Option Email) → Outcome id s (found_one s o)
  unfolding found_one
  found_one-Outcome id s none = refused _
  found_one-Outcome id s (some email) = answered s _ (Allowed-refl id s)

  -- A call of an email route is refused with the demo unchanged; or it is answered, with the same
  -- emails in the same order, every email but the one that it names unchanged, at most one row
  -- more at the end of the audit trail, and the rest of the demo unchanged.
  pub handle-Outcome :
      (route : EmailRoute) (call : Call) (s : DemoState)
      → Outcome (param call) s (handle given route call s)
  unfolding handle sent_email scheduled_email snoozed_email confirmed_email drafted
  handle-Outcome list call s = answered s _ (Allowed-refl _ s)
  handle-Outcome by_thread call s = found_one-Outcome _ s _
  handle-Outcome get_email call s =
      answer_one-Outcome _ s _ (update_email-Updated call _ s (ok-KeepsId _ (read-keeps call)))
  handle-Outcome unread call s =
      answer_done-Outcome _ s _ (update_email-Updated call _ s (ok-KeepsId _ λ email. refl))
  handle-Outcome send call s =
      then_record-Outcome _ s _ _ _ _ (update_email-Updated call _ s (ok-KeepsId _ λ email. refl))
  handle-Outcome schedule call s =
      then_record-Outcome _ s _ _ _ _
        (update_email-Updated call _ s (with_time-KeepsId _ _ λ email at. refl))
  handle-Outcome cancel_schedule call s =
      then_record-Outcome _ s _ _ _ _ (update_email-Updated call _ s (ok-KeepsId _ λ email. refl))
  handle-Outcome snooze call s =
      then_record-Outcome _ s _ _ _ _
        (update_email-Updated call _ s (with_time-KeepsId _ _ λ email at. refl))
  handle-Outcome unsnooze call s =
      then_record-Outcome _ s _ _ _ _ (update_email-Updated call _ s (ok-KeepsId _ λ email. refl))
  handle-Outcome regenerate call s = regenerate_with-Outcome call _ _ s
  handle-Outcome refine call s = refine_with-Outcome call _ s
  handle-Outcome translate call s = translate_into-Outcome _ call _ s
  handle-Outcome confirm_sender call s =
      then_record-Outcome _ s _ _ _ _ (update_email-Updated call _ s (ok-KeepsId _ λ email. refl))

  translate_into-SaysStored :
      (id : String) (call : Call) (language : Option Text) (s : DemoState)
      → SaysStored id (translate_into given call language s)
  unfolding translate_into SaysStored translated
  translate_into-SaysStored id call none s = tt
  translate_into-SaysStored id call (some language) s =
      told (prepared_translation language (given.answers (param call)))
    where
      told : (o : Option Text) → SaysStored id (translated call language o s)
      told none = tt
      told (some []) = tt
      told (some (c ∷ t)) = tt

  regenerate_with-SaysStored :
      (call : Call) (tone : Tone) (draft : Result Text) (s : DemoState)
      → SaysStored (param call) (regenerate_with call tone draft s)
  unfolding regenerate_with regenerated_email drafted SaysStored
  regenerate_with-SaysStored call tone (err e) s = tt
  regenerate_with-SaysStored call tone (ok draft) s =
      then_record-SaysStored _ s _ _ _ _
        (update_email-Updated call _ s (ok-KeepsId _ λ email. refl))

  refine_with-SaysStored :
      (call : Call) (draft : Result Text) (s : DemoState)
      → SaysStored (param call) (refine_with call draft s)
  unfolding refine_with drafted SaysStored
  refine_with-SaysStored call (err e) s = tt
  refine_with-SaysStored call (ok draft) s =
      then_record-SaysStored _ s _ _ _ _
        (update_email-Updated call _ s (ok-KeepsId _ λ email. refl))

  -- On every route but the one that looks for a thread, a call that is answered with one email is
  -- answered with the email that the demo then has under the id of the call.
  handle-SaysStored :
      (route : EmailRoute) (call : Call) (s : DemoState)
      → route ≢ by_thread
      → SaysStored (param call) (handle given route call s)
  unfolding handle sent_email scheduled_email snoozed_email confirmed_email drafted SaysStored
  handle-SaysStored list call s other = tt
  handle-SaysStored by_thread call s other = elim (other refl) [ ]
  handle-SaysStored get_email call s other =
      answer_one-SaysStored _ s _ (update_email-Updated call _ s (ok-KeepsId _ (read-keeps call)))
  handle-SaysStored unread call s other =
      answer_done-SaysStored _ s _ (update_email-Updated call _ s (ok-KeepsId _ λ email. refl))
  handle-SaysStored send call s other =
      then_record-SaysStored _ s _ _ _ _
        (update_email-Updated call _ s (ok-KeepsId _ λ email. refl))
  handle-SaysStored schedule call s other =
      then_record-SaysStored _ s _ _ _ _
        (update_email-Updated call _ s (with_time-KeepsId _ _ λ email at. refl))
  handle-SaysStored cancel_schedule call s other =
      then_record-SaysStored _ s _ _ _ _
        (update_email-Updated call _ s (ok-KeepsId _ λ email. refl))
  handle-SaysStored snooze call s other =
      then_record-SaysStored _ s _ _ _ _
        (update_email-Updated call _ s (with_time-KeepsId _ _ λ email at. refl))
  handle-SaysStored unsnooze call s other =
      then_record-SaysStored _ s _ _ _ _
        (update_email-Updated call _ s (ok-KeepsId _ λ email. refl))
  handle-SaysStored regenerate call s other = regenerate_with-SaysStored call _ _ s
  handle-SaysStored refine call s other = refine_with-SaysStored call _ s
  handle-SaysStored translate call s other = translate_into-SaysStored _ call _ s
  handle-SaysStored confirm_sender call s other =
      then_record-SaysStored _ s _ _ _ _
        (update_email-Updated call _ s (ok-KeepsId _ λ email. refl))
