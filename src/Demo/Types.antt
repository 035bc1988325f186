-- ===== src/Demo/Types.antt =====
-- demo/state.ts: the state of the demo, the calls, and the monad of the handlers.
use aimail.Base.{ℕ, Bool, Option, none, some, List, Text, String}
use aimail.Email.{Email, Tone}
use aimail.ComposeDraft.{ComposeDraft}
use aimail.Demo.PageTypes.{
  Template, DocumentDetail, HoldingReplySettings, QuietHours, ScanReading, WritingStyle,
}

-- A value of a JSON body; no call carries a number or an object.
mutual
  pub data Value : Type 0 where
    null : Value
    flag : Bool → Value
    text : Text → Value
    array : Values → Value

  pub data Values : Type 0 where
    nil : Values
    cons : Value → Values → Values

pub record Call : Type 0 where
  pub params : List String
  pub json : List (String × Value)
  pub query : List (String × String)
  pub now : ℕ

-- lib/api/errors.ts: the codes that the handlers of this model refuse with.
pub data ApiErrorCode : Type 0 where
  not_in_demo not_found demo_suggestions_only already_sent send_in_progress : ApiErrorCode
  no_recipients no_subject empty unresolved_placeholders redaction_markers conflict : ApiErrorCode
  too_many_examples empty_template no_default_template : ApiErrorCode

-- What a handler throws: an `ApiError`, or the `RangeError` of a date that is none.
pub data Failure : Type 0 where
  api_error : ℕ → ApiErrorCode → Failure
  range_error : Failure

-- types/audit.ts.
pub data ActionGroup : Type 0 where
  sending drafting privacy mailbox settings admin other : ActionGroup

pub data FieldValue : Type 0 where
  words : String → FieldValue
  letters : Text → FieldValue
  count : ℕ → FieldValue
  thousandths : Option ℕ → FieldValue
  truth : Bool → FieldValue

abbrev pub AuditFields : Type 0
AuditFields = List (String × FieldValue)

-- A row of the audit trail; `number` is that of its id, `demo-audit-<number>`. The hashes are filled
-- in when the trail is read.
pub record AuditEvent : Type 0 where
  pub number : ℕ
  pub action : String
  pub group : ActionGroup
  pub created_at : ℕ
  pub fields : AuditFields
  pub success : Bool

-- demo/data/answers.ts: what was prepared for one email. An answer left out is `none`.
pub record PreparedAnswers : Type 0 where
  pub other_tone : Tone → Option Text
  pub direct : Option Text
  pub deadline : Option Text
  pub translations : Text → Option Text

-- The prepared data, and the reading of a date's text.
pub record DemoData : Type 0 where
  pub answers : String → Option PreparedAnswers
  pub confirmed_drafts : String → Option Text
  pub suggested_direct : List Text
  pub suggested_deadline : List Text
  pub read_date : Text → Option ℕ

pub record DemoState : Type 0 where
  pub start : List Email
  pub emails : List Email
  pub dismissed : List (String × ℕ)
  pub not_waiting : List (String × ℕ)
  pub followed_up : List (String × ℕ)
  pub waiting_days : ℕ
  pub audit : List AuditEvent
  pub templates : List Template
  pub documents : List DocumentDetail
  pub holding_reply : HoldingReplySettings
  pub personal_quiet_hours : Option QuietHours
  pub scan_reading : ScanReading
  pub writing_style : Option WritingStyle
  pub compose_drafts : List ComposeDraft

pub data Result {ℓ} (A : Type ℓ) : Type ℓ where
  ok : A → Result A
  err : Failure → Result A

-- A handler's state and exceptions.
abbrev pub M : Type 0 → Type 0
M A = DemoState → DemoState × Result A

infixl 5 ◌>>=◌ ◌>>◌
abbrev pub ◌>>=◌ : {A B : Type 0} → M A → (A → M B) → M B
◌>>=◌ m f s = elim (m s).1 [ ok a ↦ f a (m s).0 | err e ↦ ((m s).0, err e) ]

abbrev pub ◌>>◌ : {B : Type 0} → M (Unit {0}) → M B → M B
m >> k = m >>= λ _. k

abbrev pub pure : {A : Type 0} → A → M A
pure a s = (s, ok a)

abbrev pub throw : {A : Type 0} → Failure → M A
throw e s = (s, err e)

-- `value ?? throw`.
abbrev pub or_throw : {A : Type 0} → Option A → Failure → M A
or_throw none e = throw e
or_throw (some a) e = pure a
