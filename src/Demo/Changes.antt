-- ===== src/Demo/Changes.antt =====
-- demo/request.ts: what the email routes assign, and the drafts that were prepared.
use aimail.Base.{
  ℕ, Bool, true, false, not, ◌&&◌, Option, none, some, List, [], ◌∷◌, ◌++◌, String, string_eq, Text,
  codes, text_eq, text_eq_instance, is_empty, trim, or_else, length, leb, ltb, ◌===◌, if◌then◌else◌,
  includes, map,
}
use aimail.Base.Maps.{get}
use aimail.Email.{Email, EgressRecord, Tone, professional, casual, sender_confirmed}
use aimail.Demo.Types.{
  Call, api_error, demo_suggestions_only, range_error, Value, text, DemoState, DemoData,
  PreparedAnswers, Result, ok, err,
}
use aimail.Demo.Json.{param, field, string_or_empty, string_of_field}
use aimail.Demo.State.{refused_not_in_demo, email_by_id}

-- `email.egress?.[0]`.
pub first_egress : List EgressRecord → Option EgressRecord
first_egress [] = none
first_egress (e ∷ es) = some e

pub ai_step : Email → ℕ → String → EgressRecord
ai_step email now purpose = record {
  at = now;
  caught = elim (first_egress email.egress) [ none ↦ 0 | some e ↦ e.caught ];
  chars = length email.draft_reply;
  hidden = elim (first_egress email.egress) [ none ↦ [] | some e ↦ e.hidden ];
  provider = "gemini";
  purpose = purpose;
}

unfoldable pub ai_steps : Email → ℕ → List String → List EgressRecord
ai_steps email now purposes = email.egress ++ map (ai_step email now) purposes

unfoldable pub is_due : Option ℕ → ℕ → Bool
is_due none now = true
is_due (some until) now = leb until now

-- `sort`, newest first, keeping the order of equal times.
unfoldable pub insert_newest : Email → List Email → List Email
insert_newest e [] = e ∷ []
insert_newest e (f ∷ es) =
    if leb f.timestamp e.timestamp then e ∷ f ∷ es else f ∷ insert_newest e es

unfoldable pub newest_first : List Email → List Email
newest_first [] = []
newest_first (e ∷ es) = insert_newest e (newest_first es)

-- `… ?? notInDemo(endpoint)`.
pub or_not_in_demo : Option Text → Result Text
or_not_in_demo none = err refused_not_in_demo
or_not_in_demo (some t) = ok t

-- `json.tone === "casual" ? "casual" : "professional"`.
unfoldable pub asked_tone : Option Value → Tone
asked_tone (some (text t)) = if text_eq t (codes "casual") then casual else professional
asked_tone _ = professional

pub same_tone : Tone → Tone → Bool
same_tone professional professional = true
same_tone casual casual = true
same_tone _ _ = false

-- `(email.reviewReasons?.length ?? 0) > 0`.
pub needs_review : Email → Bool
needs_review email = ltb 0 (length email.review_reasons)

pub tone_word : Tone → String
tone_word professional = "professional"
tone_word casual = "casual"

abbrev pub languages : List Text
languages = codes "en" ∷ codes "ms" ∷ codes "zh" ∷ []

-- `isLanguage(language)`, and the language.
unfoldable pub language_of : Option Value → Option Text
language_of (some (text t)) = if includes languages t then some t else none
language_of _ = none

-- What each change assigns.
unfoldable pub read_unless_kept : Call → Email → Email
read_unless_kept call email =
    if or_else (get "markRead" call.query) "" === "false"
    then email
    else record email { is_read = true }

unfoldable pub sent_email : Call → Email → Email
sent_email call email = record email {
  draft_reply = string_or_empty (field "draft" call);
  sent_at = some call.now;
  scheduled_for = none;
  is_read = true;
  is_answered = true;
}

-- What a change that needs a time gives, if the time is one.
unfoldable pub with_time : Result ℕ → (ℕ → Email) → Result Email
with_time (err e) change = err e
with_time (ok at) change = ok (change at)

-- The draft as a model call would have left it, with what the privacy receipt gains.
unfoldable pub drafted : ℕ → List String → Text → Email → Email
drafted now purposes draft email = record email {
  draft_reply = draft;
  egress = ai_steps (record email { draft_reply = draft }) now purposes;
}

unfoldable pub regenerated_email : Call → Tone → Text → Email → Email
regenerated_email call tone draft email =
    record (drafted call.now ("draft" ∷ "critic" ∷ []) draft email) { tone = tone }

module _ (given : DemoData) where
  -- The draft in a tone: the email's own draft in its own tone, else the prepared one.
  pub prepared_in_tone : Call → Tone → Result Text
  prepared_in_tone call tone = elim (given.answers (param call)) [
    | none ↦ err refused_not_in_demo
    | some answers ↦ or_not_in_demo (answers.other_tone tone)
  ]

  pub draft_in_tone : Call → Tone → DemoState → Result Text
  draft_in_tone call tone s = elim (email_by_id (param call) s.start) [
    | none ↦ prepared_in_tone call tone
    | some original ↦
        if same_tone original.tone tone && not (is_empty original.draft_reply)
        then ok original.draft_reply
        else prepared_in_tone call tone
  ]

  -- Only the suggestions under the box have a prepared answer.
  pub refined : Call → Result Text
  refined call =
      let instruction = trim (string_or_empty (field "instruction" call)) in
      if includes given.suggested_direct instruction
      then prepared (λ answers. answers.direct)
      else if includes given.suggested_deadline instruction
      then prepared (λ answers. answers.deadline)
      else err (api_error 400 demo_suggestions_only)
    where
      prepared : (PreparedAnswers → Option Text) → Result Text
      prepared which = elim (given.answers (param call)) [
        | none ↦ err refused_not_in_demo
        | some answers ↦ or_not_in_demo (which answers)
      ]

  -- `new Date(String(value)).toISOString()`.
  pub iso : Option Value → Result ℕ
  iso value = elim (given.read_date (string_of_field value)) [
    | none ↦ err range_error
    | some at ↦ ok at
  ]

  unfoldable pub scheduled_email : Call → Email → Result Email
  scheduled_email call email = with_time (iso (field "sendAt" call)) λ at. record email {
    draft_reply = string_or_empty (field "draft" call);
    scheduled_for = some at;
  }

  unfoldable pub snoozed_email : Call → Email → Result Email
  snoozed_email call email =
      with_time (iso (field "until" call))
        λ at. record email { snoozed_until = some at; is_read = false }

  unfoldable pub confirmed_email : Call → Email → Email
  confirmed_email call email =
      record (drafted call.now ("draft" ∷ "critic" ∷ [])
        (or_else (given.confirmed_drafts email.id) email.draft_reply) email) {
          auth_status = some sender_confirmed;
          critic_confidence = some 910;
        }
