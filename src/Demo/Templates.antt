-- ===== src/Demo/Templates.antt =====
-- demo/pages.ts: saved templates, and how one is filled in for an email.
use aimail.Base.{
  ℕ, zero, suc, ◌+◌, ◌-◌, ◌/◌, ◌%◌, Bool, true, false, ◌&&◌, Option, none, some, List, [], ◌∷◌,
  ◌++◌, Text, codes, text_eq, text_eq_instance, String, ◌===◌, string_eq, length, find, take, drop,
  is_empty, is_space, trim, ltb, ◌==◌, if◌then◌else◌,
}
use aimail.Base.Maps.{get}
use aimail.Details.{Detail}
use aimail.Masking.{span, starts_with, replace}
use aimail.DraftGuards.{template_blank}
use aimail.Email.{Email}
use aimail.Demo.Types.{Call, Value, Values, text, array, nil, cons}
use aimail.Demo.Json.{field, string_or_empty}
use aimail.Demo.PageTypes.{PageData, Template, Language, english, malay, chinese}

-- `String(n)`, in which `rounds` bounds the digits before the last.
unfoldable pub digits : ℕ → ℕ → Text
digits zero n = (b'0' + n % 10) ∷ []
digits (suc rounds) n =
    let rest = digits rounds (n / 10) in
    if ltb n 10 then (b'0' + n) ∷ [] else rest ++ (b'0' + n % 10) ∷ []

unfoldable pub number_text : ℕ → Text
number_text n = digits n n

abbrev pub malay_months : List Text
malay_months =
    codes "Januari"
    ∷ codes "Februari"
    ∷ codes "Mac"
    ∷ codes "April"
    ∷ codes "Mei"
    ∷ codes "Jun"
    ∷ codes "Julai"
    ∷ codes "Ogos"
    ∷ codes "September"
    ∷ codes "Oktober"
    ∷ codes "November"
    ∷ codes "Disember"
    ∷ []

abbrev pub english_months : List Text
english_months =
    codes "January"
    ∷ codes "February"
    ∷ codes "March"
    ∷ codes "April"
    ∷ codes "May"
    ∷ codes "June"
    ∷ codes "July"
    ∷ codes "August"
    ∷ codes "September"
    ∷ codes "October"
    ∷ codes "November"
    ∷ codes "December"
    ∷ []

-- `${months[month]}`.
unfoldable pub month_name : List Text → ℕ → Text
month_name [] n = codes "undefined"
month_name (m ∷ ms) zero = m
month_name (m ∷ ms) (suc n) = month_name ms n

unfoldable pub format_day : ℕ × ℕ × ℕ → Language → Text
format_day (year, month, day) chinese =
    number_text year
    ++ codes "年"
    ++ number_text (month + 1)
    ++ codes "月"
    ++ number_text day
    ++ codes "日"
format_day (year, month, day) malay =
    number_text day ++ 32 ∷ month_name malay_months month ++ 32 ∷ number_text year
format_day (year, month, day) english =
    number_text day ++ 32 ∷ month_name english_months month ++ 32 ∷ number_text year

pub data Variable : Type 0 where
  name my_name today : Variable

abbrev pub aliases : List (Text × Variable)
aliases =
    (codes "name", name)
    ∷ (codes "nama", name)
    ∷ (codes "姓名", name)
    ∷ (codes "名字", name)
    ∷ (codes "my name", my_name)
    ∷ (codes "nama saya", my_name)
    ∷ (codes "我的名字", my_name)
    ∷ (codes "today", today)
    ∷ (codes "hari ini", today)
    ∷ (codes "今天", today)
    ∷ []

-- `split(/\s+/).join(" ")`; the flag says whether the character before was white space.
unfoldable pub single_spaced : Bool → Text → Text
single_spaced in_space [] = []
single_spaced in_space (c ∷ s) =
    let later = single_spaced true s in
    let next = single_spaced false s in
    if is_space c then (if in_space then later else 32 ∷ later) else c ∷ next

-- `text.includes(part)`.
unfoldable pub has_part : Text → Text → Bool
has_part part [] = is_empty part
has_part part (c ∷ s) = elim (starts_with part (c ∷ s)) [ true ↦ true | false ↦ has_part part s ]

unfoldable pub hides : Text → Detail → Bool
hides person detail = detail.kind === "PERSON" && has_part detail.value person

-- The placeholder that stands for a person in this email.
unfoldable pub placeholder_for : Email → Text → Option Text
placeholder_for email [] = none
placeholder_for email (c ∷ s) = elim (find (hides (c ∷ s)) email.details) [
  | none ↦ none
  | some detail ↦ some detail.placeholder
]

-- What a match holds between its braces.
unfoldable pub inside : Text → Text
inside whole = take (length whole - 4) (drop 2 whole)

-- `(value) || whole`.
unfoldable pub text_or_whole : Option Text → Text → Text
text_or_whole none whole = whole
text_or_whole (some []) whole = whole
text_or_whole (some (c ∷ s)) whole = c ∷ s

-- The `id`s of templates differ; a template is changed where the list holds it.
unfoldable pub template_by_id : String → List Template → Option Template
template_by_id id templates = find (λ template. template.id === id) templates

unfoldable pub assign_template : String → Template → List Template → List Template
assign_template id changed [] = []
assign_template id changed (template ∷ templates) =
    if template.id === id
    then changed ∷ templates
    else template ∷ assign_template id changed templates

unfoldable pub language_or_english : Option Value → Language
language_or_english (some (text t)) =
    if text_eq t (codes "ms") then malay else if text_eq t (codes "zh") then chinese else english
language_or_english _ = english

-- The strings of an array.
unfoldable pub strings_in : Values → List Text
strings_in nil = []
strings_in (cons (text t) values) = t ∷ strings_in values
strings_in (cons _ values) = strings_in values

unfoldable pub keywords : Option Value → List Text
keywords (some (array values)) = strings_in values
keywords _ = []

unfoldable pub template_from : Call → String → Template
template_from call id = record {
  id = id;
  title = string_or_empty (field "title" call);
  body = string_or_empty (field "body" call);
  language = language_or_english (field "language" call);
  trigger_keywords = keywords (field "triggerKeywords" call);
  last_used_at = none;
}

module _ (given : PageData) where
  unfoldable pub sender_name : Email → Text
  sender_name email = trim (span (λ c. if c == b'<' then false else true) email.sender).0

  unfoldable pub value_of : Template → Email → ℕ → Variable → Option Text
  value_of template email now name = placeholder_for email (sender_name email)
  value_of template email now my_name = placeholder_for email given.owner_name
  value_of template email now today = some (format_day (given.local_date now) template.language)

  unfoldable pub known_value : Template → Email → ℕ → Option Variable → Option Text
  known_value template email now none = none
  known_value template email now (some variable) = value_of template email now variable

  unfoldable pub filled_in : Template → Email → ℕ → Text → Text
  filled_in template email now whole =
      text_or_whole
        (known_value template email now
          (get (single_spaced false (given.to_lower (trim (inside whole)))) aliases))
        whole

  unfoldable pub fill_template : Template → Email → ℕ → Text
  fill_template template email now =
      replace template_blank (filled_in template email now) 0 template.body
