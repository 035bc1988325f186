-- ===== src/Demo/Settings.antt =====
-- demo/pages.ts: the settings, and the writing style.
use aimail.Base.{
  ℕ, Bool, true, false, not, ◌&&◌, Option, none, some, List, [], ◌∷◌, ◌++◌, Text, codes, text_eq,
  String, ◌===◌, filter, any, is_empty, trim, leb, or_else, if◌then◌else◌,
}
use aimail.Email.{Email}
use aimail.Demo.Types.{
  Call, Value, null, flag, text, array, ApiErrorCode, empty_template, no_default_template,
  AuditFields, DemoState,
}
use aimail.Demo.Json.{field, string_or_empty}
use aimail.Demo.State.{record_row}
use aimail.Demo.PageTypes.{
  Language, english, malay, chinese, HoldingReplySettings, QuietHours, ScanMode, checked, local,
  ExampleSource, pasted, sent, StyleExample, WritingStyle,
}

-- The body of a call that changes the settings, field by field; what is left out is `none`, and so
-- is a value of quiet hours that is of another type.
pub record HoldingReplyChange : Type 0 where
  pub enabled : Option Bool
  pub templates : Option (List (Language × Text))
  pub default_language : Option Language

pub record QuietHoursChange : Type 0 where
  pub start : Option Text
  pub end : Option Text
  pub timezone : Option Text
  pub weekend_days : Option (List ℕ)

unfoldable pub merged : HoldingReplySettings → HoldingReplyChange → HoldingReplySettings
merged settings change = record {
  enabled = or_else change.enabled settings.enabled;
  templates = or_else change.templates settings.templates;
  default_language = or_else change.default_language settings.default_language;
}

unfoldable pub same_language : Language → Language → Bool
same_language english english = true
same_language malay malay = true
same_language chinese chinese = true
same_language _ _ = false

-- `!!templates[language]`.
unfoldable pub has_template : Language → List (Language × Text) → Bool
has_template language [] = false
has_template language ((other, t) ∷ templates) =
    if same_language language other then not (is_empty t) else has_template language templates

unfoldable pub holding_reply_error : HoldingReplySettings → Option ApiErrorCode
holding_reply_error settings =
    if any (λ entry. is_empty (trim entry.1)) settings.templates
    then some empty_template
    else if settings.enabled && not (has_template settings.default_language settings.templates)
    then some no_default_template
    else none

unfoldable pub is_iso_weekday : ℕ → Bool
is_iso_weekday day = leb 1 day && leb day 7

unfoldable pub weekend_from : Option (List ℕ) → List ℕ → List ℕ
weekend_from none company = company
weekend_from (some days) company = filter is_iso_weekday days

unfoldable pub quiet_hours_from : QuietHours → QuietHoursChange → QuietHours
quiet_hours_from company change = record {
  start = or_else change.start company.start;
  end = or_else change.end company.end;
  timezone = or_else change.timezone company.timezone;
  weekend_days = weekend_from change.weekend_days company.weekend_days;
}

-- `json.mode === "checked"`.
unfoldable pub scan_mode : Option Value → ScanMode
scan_mode (some (text t)) = if text_eq t (codes "checked") then checked else local
scan_mode _ = local

-- `Boolean(value)`.
unfoldable pub is_truthy : Option Value → Bool
is_truthy none = false
is_truthy (some null) = false
is_truthy (some (flag b)) = b
is_truthy (some (text t)) = not (is_empty t)
is_truthy (some (array values)) = true

abbrev pub empty_style : WritingStyle
empty_style = record {
  description = [];
  learning = false;
  max_examples = 3;
  examples = [];
  habits = [];
}

unfoldable pub writing_style : DemoState → WritingStyle
writing_style s = or_else s.writing_style empty_style

-- `changeStyle`, and the style that it leaves.
unfoldable pub change_style :
    String → AuditFields → ℕ → (WritingStyle → WritingStyle) → DemoState → DemoState
change_style action fields now change s =
    record_row action fields now (record s { writing_style = some (change (writing_style s)) })

unfoldable pub source_word : ExampleSource → String
source_word pasted = "pasted"
source_word sent = "sent"

unfoldable pub example_of : (ℕ → String) → Call → Option Email → StyleExample
example_of new_id call none = record {
  id = new_id call.now;
  source = pasted;
  created_at = call.now;
  text = string_or_empty (field "text" call);
}
example_of new_id call (some email) = record {
  id = new_id call.now;
  source = sent;
  created_at = call.now;
  text = email.draft_reply;
}

unfoldable pub with_example : StyleExample → WritingStyle → WritingStyle
with_example example style = record style { examples = style.examples ++ example ∷ [] }

unfoldable pub without_example : String → WritingStyle → WritingStyle
without_example id style = record style {
  examples = filter (λ example. not (example.id === id)) style.examples;
}

unfoldable pub without_habit : String → WritingStyle → WritingStyle
without_habit id style = record style {
  habits = filter (λ habit. not (habit.id === id)) style.habits;
}
