-- ===== src/Demo/Trail.antt =====
-- demo/state.ts: the hash chain of the audit trail. The digest is a parameter, and `epoch` the moment
-- from which `getTime` counts; rows are recorded behind it.
use aimail.Base.{
  ℕ, ◌+◌, ◌-◌, ◌/◌, ◌%◌, zero, suc, Bool, true, false, ◌&&◌, ◌||◌, Option, none, some, List, [],
  ◌∷◌, ◌++◌, Text, codes, String, ltb, leb, ◌==◌, if◌then◌else◌,
}
use aimail.Demo.Types.{
  AuditFields, AuditEvent, FieldValue, words, letters, count, thousandths, truth, DemoState,
}
use aimail.Demo.Templates.{number_text}

-- `n.toString(16)` of one digit.
unfoldable pub hex_digit : ℕ → ℕ
hex_digit n = if ltb n 10 then b'0' + n else b'a' + (n - 10)

-- `\uXXXX`.
unfoldable pub unicode_escape : ℕ → Text
unicode_escape c =
    codes "\\u"
    ++ hex_digit (c / 4096)
      ∷ hex_digit (c / 256 % 16)
      ∷ hex_digit (c / 16 % 16)
      ∷ hex_digit (c % 16)
      ∷ []

unfoldable pub is_high_surrogate : ℕ → Bool
is_high_surrogate c = leb 0xd800 c && leb c 0xdbff

unfoldable pub is_low_surrogate : ℕ → Bool
is_low_surrogate c = leb 0xdc00 c && leb c 0xdfff

unfoldable pub begins_low : Text → Bool
begins_low [] = false
begins_low (c ∷ s) = is_low_surrogate c

-- A character of a string in JSON, which is no half of a pair.
unfoldable pub escape_char : ℕ → Text
escape_char c =
    if c == 0x22
    then codes "\\\""
    else if c == 0x5c
    then codes "\\\\"
    else if c == 8
    then codes "\\b"
    else if c == 9
    then codes "\\t"
    else if c == 10
    then codes "\\n"
    else if c == 12
    then codes "\\f"
    else if c == 13
    then codes "\\r"
    else if ltb c 32 || is_high_surrogate c || is_low_surrogate c
    then unicode_escape c
    else c ∷ []

-- The flag says that the first character is the second half of a pair.
unfoldable pub escaped : Bool → Text → Text
escaped in_pair [] = []
escaped true (c ∷ s) = c ∷ escaped false s
escaped false (c ∷ s) =
    let paired = escaped true s in
    let alone = escaped false s in
    if is_high_surrogate c && begins_low s then c ∷ paired else escape_char c ++ alone

unfoldable pub quoted : Text → Text
quoted t = 0x22 ∷ escaped false t ++ 0x22 ∷ []

-- The digits behind the point, without zeros at the end.
unfoldable pub fraction_text : ℕ → Text
fraction_text n =
    if n == 0
    then []
    else if n % 100 == 0
    then codes "." ++ (b'0' + n / 100) ∷ []
    else if n % 10 == 0
    then codes "." ++ (b'0' + n / 100) ∷ (b'0' + n / 10 % 10) ∷ []
    else codes "." ++ (b'0' + n / 100) ∷ (b'0' + n / 10 % 10) ∷ (b'0' + n % 10) ∷ []

-- `JSON.stringify` of a field's value.
unfoldable pub value_json : FieldValue → Text
value_json (words w) = quoted (codes w)
value_json (letters t) = quoted t
value_json (count n) = number_text n
value_json (thousandths none) = codes "null"
value_json (thousandths (some n)) = number_text (n / 1000) ++ fraction_text (n % 1000)
value_json (truth true) = codes "true"
value_json (truth false) = codes "false"

unfoldable pub entry_json : String × FieldValue → Text
entry_json (key, value) = quoted (codes key) ++ codes ":" ++ value_json value

unfoldable pub entries_json : AuditFields → Text
entries_json [] = []
entries_json (e ∷ []) = entry_json e
entries_json (e ∷ f ∷ es) = entry_json e ++ codes "," ++ entries_json (f ∷ es)

-- `a < b` of texts.
unfoldable pub text_ltb : Text → Text → Bool
text_ltb s [] = false
text_ltb [] (d ∷ t) = true
text_ltb (c ∷ s) (d ∷ t) = ltb c d || c == d && text_ltb s t

unfoldable pub insert_by_key : String × FieldValue → AuditFields → AuditFields
insert_by_key e [] = e ∷ []
insert_by_key e (f ∷ es) =
    if text_ltb (codes f.0) (codes e.0) then f ∷ insert_by_key e es else e ∷ f ∷ es

unfoldable pub by_key : AuditFields → AuditFields
by_key [] = []
by_key (e ∷ es) = insert_by_key e (by_key es)

unfoldable pub canonical_detail : AuditFields → Text
canonical_detail fields = codes "{" ++ entries_json (by_key fields) ++ codes "}"

abbrev pub epoch : ℕ
epoch = 8640000000000000

-- Seconds with six decimals, of milliseconds.
unfoldable pub epoch_text : ℕ → Text
epoch_text at =
    number_text ((at - epoch) / 1000)
    ++ codes "."
    ++ (b'0' + (at - epoch) % 1000 / 100)
      ∷ (b'0' + (at - epoch) % 1000 / 10 % 10)
      ∷ (b'0' + (at - epoch) % 10)
      ∷ codes "000"

abbrev pub separator : ℕ
separator = 31

-- `fields.join(SEPARATOR)`.
unfoldable pub joined_fields : List Text → Text
joined_fields [] = []
joined_fields (t ∷ []) = t
joined_fields (t ∷ u ∷ ts) = t ++ separator ∷ joined_fields (u ∷ ts)

unfoldable pub success_text : Bool → Text
success_text true = codes "true"
success_text false = codes "false"

-- What the hash of a row is taken of, with the hash before it and its place in the trail.
unfoldable pub hashed_text : Text → ℕ → AuditEvent → Text
hashed_text prev place event = joined_fields (
    prev
    ∷ number_text place
    ∷ codes event.action
    ∷ canonical_detail event.fields
    ∷ success_text event.success
    ∷ []
    ∷ epoch_text event.created_at
    ∷ [])

unfoldable pub repeated : ℕ → ℕ → Text
repeated zero c = []
repeated (suc n) c = c ∷ repeated n c

-- `"0".repeat(64)`.
unfoldable pub genesis_hash : Text
genesis_hash = repeated 64 b'0'

pub record ChainedEvent : Type 0 where
  pub event : AuditEvent
  pub prev_hash : Text
  pub current_hash : Text

module _ (sha256 : Text → Text) where
  unfoldable pub chained_from : Text → ℕ → List AuditEvent → List ChainedEvent
  chained_from prev place [] = []
  chained_from prev place (event ∷ events) =
      record {
        event = event;
        prev_hash = prev;
        current_hash = sha256 (hashed_text prev place event);
      }
      ∷ chained_from (sha256 (hashed_text prev place event)) (place + 1) events

  unfoldable pub chained_audit : DemoState → List ChainedEvent
  chained_audit s = chained_from genesis_hash 1 s.audit

-- `chain.at(-1)?.currentHash ?? null`.
unfoldable pub head_hash : List ChainedEvent → Option Text
head_hash [] = none
head_hash (row ∷ []) = some row.current_hash
head_hash (row ∷ next ∷ rows) = head_hash (next ∷ rows)
