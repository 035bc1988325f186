-- ===== src/Demo/Compose.antt =====
-- demo/compose.ts: what Compose's calls assign to a draft, and when a send is refused.
use aimail.Base.{
  ℕ, zero, suc, ◌+◌, ◌-◌, Bool, true, false, not, Option, none, some, List, [], ◌∷◌, ◌++◌, map,
  Text, codes, text_eq, text_eq_instance, is_empty, trim, String, or_else, length, leb, filter,
  if◌then◌else◌, includes,
}
use aimail.Masking.{starts_with}
use aimail.Details.{Detail, detail_values, has_missing_details, restore_details}
use aimail.DraftGuards.{find_redaction_markers}
use aimail.Email.{EgressRecord, Tone, professional, casual}
use aimail.ComposeDraft.{ComposeDraft, ComposeState}
use aimail.Demo.Types.{
  Call, Value, Values, text, array, nil, cons, ApiErrorCode, api_error, no_recipients, no_subject,
  empty, unresolved_placeholders, redaction_markers, demo_suggestions_only, Result, ok, err,
}
use aimail.Demo.Json.{field, string_of, string_or_empty}

-- demo/data/compose.ts, the suggestions of every language, and the id of a draft by the number of
-- drafts and the moment.
pub record ComposeData : Type 0 where
  pub details : List Detail
  pub sources : List String
  pub written_subject : Text
  pub written_body : Text
  pub refined_direct : Text
  pub refined_deadline : Text
  pub suggested_direct : List Text
  pub suggested_deadline : List Text
  pub new_id : ℕ → ℕ → String

-- `replaceAll(value, placeholder)` behind `skip` characters that are replaced already. No value is
-- empty and no placeholder has a `$`, which the method would read otherwise.
unfoldable pub replace_all : Text → Text → ℕ → Text → Text
replace_all value placeholder skip [] = []
replace_all value placeholder (suc k) (c ∷ s) = replace_all value placeholder k s
replace_all value placeholder zero (c ∷ s) = elim (starts_with value (c ∷ s)) [
  | true ↦ placeholder ++ replace_all value placeholder (length value - 1) s
  | false ↦ c ∷ replace_all value placeholder 0 s
]

-- `sort`, the longest value first, keeping the order of equal lengths.
unfoldable pub insert_longest : Detail → List Detail → List Detail
insert_longest d [] = d ∷ []
insert_longest d (next ∷ rest) =
    if leb (length next.value) (length d.value)
    then d ∷ next ∷ rest
    else next ∷ insert_longest d rest

unfoldable pub longest_first : List Detail → List Detail
longest_first [] = []
longest_first (d ∷ details) = insert_longest d (longest_first details)

unfoldable pub replace_each : Text → List Detail → Text
replace_each out [] = out
replace_each out (d ∷ known) = replace_each (replace_all d.value d.placeholder 0 out) known

unfoldable pub tokenised : Text → ComposeDraft → Text
tokenised t draft = replace_each t (longest_first draft.details)

unfoldable pub value_texts : Values → List Text
value_texts nil = []
value_texts (cons v values) = string_of v ∷ value_texts values

-- `strings`, `null` being `none`.
unfoldable pub strings : Option Value → Option (List Text)
strings (some (array values)) =
    some (filter (λ item. not (is_empty (trim item))) (value_texts values))
strings _ = none

unfoldable pub text_or : ComposeDraft → Text → Option Value → Text
text_or draft stored (some (text t)) = tokenised t draft
text_or draft stored _ = stored

unfoldable pub tone_or : Tone → Option Value → Tone
tone_or stored (some (text t)) =
    if text_eq t (codes "casual")
    then casual
    else if text_eq t (codes "professional")
    then professional
    else stored
tone_or stored _ = stored

-- The fields the call carries into the draft; any left out keep what is stored.
unfoldable pub apply : Call → ComposeDraft → ComposeDraft
apply call draft = record draft {
  to = or_else (strings (field "to" call)) draft.to;
  cc = or_else (strings (field "cc" call)) draft.cc;
  subject = text_or draft draft.subject (field "subject" call);
  brief = text_or draft draft.brief (field "brief" call);
  body = text_or draft draft.body (field "body" call);
  tone = tone_or draft.tone (field "tone" call);
  updated_at = call.now;
}

pub compose_step : ComposeDraft → ℕ → String → EgressRecord
compose_step draft now purpose = record {
  at = now;
  caught = 0;
  chars = length draft.brief + length draft.body;
  hidden = ("PERSON", 1) ∷ ("PHONE", 1) ∷ [];
  provider = "gemini";
  purpose = purpose;
}

-- `aiSteps`.
pub compose_steps : ComposeDraft → ℕ → List String → List EgressRecord
compose_steps draft now purposes = draft.egress ++ map (compose_step draft now) purposes

unfoldable pub is_blank : Text → Bool
is_blank t = is_empty (trim t)

unfoldable pub email_text : ComposeDraft → Text
email_text email = email.subject ++ 10 ∷ email.body

unfoldable pub is_nil : List Text → Bool
is_nil [] = true
is_nil (t ∷ ts) = false

-- The checks of a send, in order.
unfoldable pub refused_send : ComposeDraft → Option ApiErrorCode
refused_send email =
    if is_nil email.to
    then some no_recipients
    else if is_blank email.subject
    then some no_subject
    else if is_blank email.body
    then some empty
    else if has_missing_details (email_text email) (detail_values email.details)
    then some unresolved_placeholders
    else if not (
        is_nil (
          find_redaction_markers
            (restore_details (email_text email) (detail_values email.details))))
    then some redaction_markers
    else none

-- What a send leaves of the draft that it was given.
unfoldable pub sent_draft : ℕ → ComposeDraft → ComposeDraft
sent_draft now email = record email {
  state = ComposeState.sent;
  sent_at = some now;
  updated_at = now;
}

module _ (given : ComposeData) where
  unfoldable pub new_draft : Call → ℕ → ComposeDraft
  new_draft call number = apply call (record {
    id = given.new_id number call.now;
    to = [];
    cc = [];
    subject = [];
    brief = [];
    body = [];
    tone = professional;
    state = ComposeState.draft;
    sources = [];
    review_reasons = [];
    critic_confidence = none;
    details = given.details;
    egress = [];
    generated_at = none;
    sent_at = none;
    updated_at = call.now;
  })

  -- The draft as a write fills it in, before the receipt.
  unfoldable pub filled : ℕ → ComposeDraft → ComposeDraft
  filled now draft = record draft {
    subject = if is_blank draft.subject then given.written_subject else draft.subject;
    body = given.written_body;
    sources = given.sources;
    critic_confidence = some 930;
    review_reasons = [];
    generated_at = some now;
  }

  unfoldable pub written : ℕ → ComposeDraft → ComposeDraft
  written now draft = record (filled now draft) {
    egress = compose_steps (filled now draft) now ("search" ∷ "draft" ∷ "critic" ∷ []);
  }

  -- Only the suggestions under the box have a prepared answer.
  pub refined_body : Call → Result Text
  refined_body call =
      let instruction = trim (string_or_empty (field "instruction" call)) in
      if includes given.suggested_direct instruction
      then ok given.refined_direct
      else if includes given.suggested_deadline instruction
      then ok given.refined_deadline
      else err (api_error 422 demo_suggestions_only)

-- The draft with a refined body.
unfoldable pub refined_draft : ℕ → Text → ComposeDraft → ComposeDraft
refined_draft now body draft = record draft {
  body = body;
  egress = compose_steps (record draft { body = body }) now ("refine" ∷ "critic" ∷ []);
}
