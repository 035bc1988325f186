-- ===== src/Demo/ComposeDelivery.antt =====
-- lib/useComposeDraft.ts, lib/api/compose.ts, demo/compose.ts: an email that the editor lets go is
-- accepted where it is sent to.
use aimail.Base.{
  ℕ, Bool, true, false, not, none, some, List, [], ◌∷◌, ◌++◌, Text, String, is_empty, trim, filter,
  all, ◌≡◌, refl, sym, ap, ◌∙◌, arith, append-nil,
}
use aimail.Base.Maps.{get}
use aimail.Details.{detail_values, has_missing_details, restore_details}
use aimail.DraftGuards.{find_redaction_markers}
use aimail.ComposeDraft.{ComposeDraft, ComposeState}
use aimail.ComposeEditor.Types.{Editor, Render, ComposeFields, OutgoingEmail, SendBlocker}
use aimail.ComposeEditor.Actions
use aimail.ComposeEditor.Actions.{
  any_in, blockers, send_blockers, fields, closed_over, kept_if, outgoing_text, values,
}
use aimail.Demo.Types.{Call, Value, Values, text, array, flag, nil, cons, DemoState, ok}
use aimail.Demo.Json.{param, field, string_of}
use aimail.Demo.State.{record_row}
use aimail.Demo.Compose.{
  ComposeData, apply, strings, value_texts, text_or, tone_or, is_blank, tokenised, is_nil,
  email_text, refused_send, sent_draft,
}
use aimail.Demo.ComposeCalls.{
  saved, send, draft_by_id, assign_draft, put_draft, with_found, send_found, send_unless, on_draft,
  handle_compose,
}

-- A JSON array of strings.
unfoldable pub texts : List Text → Values
texts [] = nil
texts (t ∷ ts) = cons (text t) (texts ts)

-- The body that `sendComposeDraft` posts.
unfoldable pub email_json : OutgoingEmail → List (String × Value)
email_json email =
    ("to", array (texts email.to))
    ∷ ("cc", array (texts email.cc))
    ∷ ("subject", text email.subject)
    ∷ ("body", text email.body)
    ∷ ("remindIfNoReply", flag email.remind_if_no_reply)
    ∷ []

-- The draft with what was approved.
unfoldable pub with_email : OutgoingEmail → ℕ → ComposeDraft → ComposeDraft
with_email email now draft = record draft {
  to = email.to;
  cc = email.cc;
  subject = email.subject;
  body = email.body;
  updated_at = now;
}

value_texts-texts : (ts : List Text) → value_texts (texts ts) ≡ ts
unfolding value_texts texts string_of
value_texts-texts [] = refl
value_texts-texts (t ∷ ts) = ap (λ r. t ∷ r) (value_texts-texts ts)

filter-all : (p : Text → Bool) (ts : List Text) → all p ts ≡ true → filter p ts ≡ ts
filter-all p [] h = refl
filter-all p (t ∷ ts) h = ground (arith, filter-all p ts)

-- No address of the list is blank.
abbrev NoneBlank : List Text → Type 0
NoneBlank ts = all (λ t. not (is_empty (trim t))) ts ≡ true

strings-texts : (ts : List Text) → NoneBlank ts → strings (some (array (texts ts))) ≡ some ts
unfolding strings
strings-texts ts h = ap some (ap (filter _) (value_texts-texts ts) ∙ filter-all _ ts h)

-- What a blocker list without blockers says of its first check.
kept_if-nil :
    (blocker : SendBlocker) (is_blocking : Bool) (rest : List SendBlocker)
    → kept_if blocker is_blocking ++ rest ≡ []
    → (is_blocking ≡ false) × (rest ≡ [])
unfolding kept_if
kept_if-nil blocker true rest h = cc
kept_if-nil blocker false rest h = (refl, h)

module _ (call : Call) (draft : ComposeDraft) (email : OutgoingEmail) where
  -- A call that carries the email changes the fields that it carries to those.
  apply-email :
      call.json ≡ email_json email
      → tokenised email.subject draft ≡ email.subject
      → tokenised email.body draft ≡ email.body
      → NoneBlank email.to
      → NoneBlank email.cc
      → apply call draft ≡ with_email email call.now draft
  unfolding apply with_email text_or tone_or field get email_json
  apply-email posted subject body to_there cc_there =
      rw (posted, strings-texts email.to to_there, strings-texts email.cc cc_there, subject, body)
        refl

not-any_in : (ts : List Text) → not (any_in ts) ≡ is_nil ts
unfolding any_in is_nil
not-any_in [] = refl
not-any_in (t ∷ ts) = refl

not-is_nil : (ts : List Text) → not (is_nil ts) ≡ any_in ts
unfolding any_in is_nil
not-is_nil [] = refl
not-is_nil (t ∷ ts) = refl

-- What the checks of the editor say of an email, each as the demo makes it.
record Clear (email : ComposeDraft) : Type 0 where
  sent_to : is_nil email.to ≡ false
  titled : is_blank email.subject ≡ false
  filled : is_blank email.body ≡ false
  complete : has_missing_details (email_text email) (detail_values email.details) ≡ false
  unmarked : any_in (find_redaction_markers (email_text email)) ≡ false

send_blockers-Clear :
    (f : ComposeFields) (email : ComposeDraft)
    → f.to ≡ email.to
    → f.subject ≡ email.subject
    → f.body ≡ email.body
    → send_blockers f (detail_values email.details) ≡ []
    → Clear email
unfolding send_blockers Actions.is_blank is_blank outgoing_text email_text
send_blockers-Clear f email to subject body h =
    let (no_to, h1) = kept_if-nil _ _ _ h in
    let (no_subject, h2) = kept_if-nil _ _ _ h1 in
    let (no_body, h3) = kept_if-nil _ _ _ h2 in
    let (no_missing, h4) = kept_if-nil _ _ _ h3 in
    let (no_blanks, h5) = kept_if-nil _ _ _ h4 in
    let (no_markers, _) = kept_if-nil _ _ [] (append-nil _ ∙ h5) in
    record {
      sent_to = ap is_nil (sym to) ∙ sym (not-any_in f.to) ∙ no_to;
      titled = ap is_blank (sym subject) ∙ no_subject;
      filled = ap is_blank (sym body) ∙ no_body;
      complete =
          ap (λ t. has_missing_details t (detail_values email.details)) (sym same) ∙ no_missing;
      unmarked = ap (λ t. any_in (find_redaction_markers t)) (sym same) ∙ no_markers;
    }
  where
    same : f.subject ++ 10 ∷ f.body ≡ email.subject ++ 10 ∷ email.body
    same = cc

refused_send-Clear :
    (email : ComposeDraft)
    → restore_details (email_text email) (detail_values email.details) ≡ email_text email
    → Clear email
    → refused_send email ≡ none
unfolding refused_send
refused_send-Clear email plain c =
    rw
      (
        c.sent_to,
        c.titled,
        c.filled,
        c.complete,
        plain,
        not-is_nil (find_redaction_markers (email_text email)),
        c.unmarked,
      )
      refl

-- An email that nothing blocks in the editor, that has no blank address, none of the draft's real
-- details and none of their placeholders in its subject and body, is accepted where it is posted to:
-- the draft is sent, with the fields that were approved.
pub approved-accepted :
    (given : ComposeData) (v : Render) (w : Editor) (call : Call) (s : DemoState)
    → draft_by_id (param call) s.compose_drafts ≡ some v.draft
    → v.draft.state ≡ ComposeState.draft
    → tokenised (fields v w).subject v.draft ≡ (fields v w).subject
    → tokenised (fields v w).body v.draft ≡ (fields v w).body
    → restore_details (outgoing_text (fields v w)) (values v) ≡ outgoing_text (fields v w)
    → blockers v w ≡ []
    → call.json ≡ email_json (closed_over v w).email
    → NoneBlank (fields v w).to
    → NoneBlank (fields v w).cc
    → let sent = sent_draft call.now (with_email (closed_over v w).email call.now v.draft) in
      ((handle_compose given send call s).1 ≡ ok (saved sent))
      × ((handle_compose given send call s).0.compose_drafts
          ≡ assign_draft (param call) sent s.compose_drafts)
unfolding handle_compose with_found on_draft send_found send_unless blockers values closed_over
    with_email put_draft record_row
approved-accepted given v w call s found editable subject body plain clear posted to_there
      cc_there =
    let email = with_email (closed_over v w).email call.now v.draft in
    let applied =
      apply-email call v.draft (closed_over v w).email posted subject body to_there cc_there in
    let passes : refused_send email ≡ none =
      refused_send-Clear email (unfold outgoing_text in unfold email_text in plain)
        (send_blockers-Clear (fields v w) email refl refl refl clear) in
    let goes : handle_compose given send call s ≡ send_unless call none email s =
      ap (λ o. with_found o (on_draft given send call) s) found
      ∙ ap (λ at. send_found call at v.draft s) editable
      ∙ ap (λ e. send_unless call (refused_send e) e s) applied
      ∙ ap (λ o. send_unless call o email s) passes in
    (ap (λ r. r.1) goes, ap (λ r. r.0.compose_drafts) goes)
