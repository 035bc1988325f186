-- ===== src/Recipients.antt =====
-- lib/recipients.ts: typed or pasted recipients, and which of them fit.
use aimail.Base.{
  ℕ, ◌+◌, ◌-◌, Bool, true, false, not, ◌&&◌, ◌||◌, List, [], ◌∷◌, ◌++◌, Text, map, filter, length,
  take, drop, leb, ltb, trim, trim_start, is_empty, ◌==◌, if◌then◌else◌,
}
pub mod Limits
pub mod Tests

-- `SEPARATORS`: comma, semicolon, line feed, carriage return, tab.
unfoldable pub is_separator : ℕ → Bool
is_separator c = c == b',' || c == b';' || c == 10 || c == 13 || c == 9

abbrev pub max_recipients : ℕ
max_recipients = 20

abbrev pub max_address_chars : ℕ
max_address_chars = 320

unfoldable pub tidy : List Text → List Text
tidy parts = filter (λ part. not (is_empty part)) (map trim parts)

-- What the loop holds.
pub record Scanning : Type 0 where
  pub complete : List Text
  pub current : Text
  pub is_quoted : Bool
  pub is_in_angle : Bool

pub record Scan : Type 0 where
  pub complete : List Text
  pub rest : Text
  pub is_balanced : Bool

-- A quote outside angle brackets toggles; angle brackets count outside quotes.
unfoldable pub quoted_after : ℕ → Scanning → Bool
quoted_after c s = if c == b'"' && not s.is_in_angle then not s.is_quoted else s.is_quoted

unfoldable pub in_angle_after : ℕ → Bool → Bool → Bool
in_angle_after c is_quoted is_in_angle =
    if c == b'>' && not is_quoted
    then false
    else if c == b'<' && not is_quoted
    then true
    else is_in_angle

-- The loop's last part, with the flags as the character leaves them.
unfoldable pub take_char : ℕ → Scanning → Scanning
take_char c s =
    if is_separator c && not s.is_quoted && not s.is_in_angle
    then record s { complete = s.complete ++ s.current ∷ []; current = [] }
    else record s { current = s.current ++ c ∷ [] }

unfoldable pub scan_char : ℕ → Scanning → Scanning
scan_char c s = take_char c (record s {
  is_quoted = quoted_after c s;
  is_in_angle = in_angle_after c (quoted_after c s) s.is_in_angle;
})

unfoldable pub scan_from : Scanning → Text → Scanning
scan_from s [] = s
scan_from s (c ∷ text) = scan_from (scan_char c s) text

unfoldable pub scanned : Scanning → Scan
scanned s = record {
  complete = tidy s.complete;
  rest = trim_start s.current;
  is_balanced = not s.is_quoted && not s.is_in_angle;
}

unfoldable pub scan : Text → Scan
scan text = scanned (
    scan_from (record { complete = []; current = []; is_quoted = false; is_in_angle = false }) text)

-- `splitRecipients`: the finished recipients, and the text after the last separator.
unfoldable pub split_recipients : Text → List Text × Text
split_recipients text = ((scan text).complete, (scan text).rest)

-- `split(/[,;\n\r\t]/)`.
unfoldable pub add_char : ℕ → List Text → List Text
add_char c [] = (c ∷ []) ∷ []
add_char c (part ∷ parts) = (c ∷ part) ∷ parts

unfoldable pub split : Text → List Text
split [] = [] ∷ []
split (c ∷ text) = let rest = split text in if is_separator c then [] ∷ rest else add_char c rest

unfoldable pub parse_recipients : Text → List Text
parse_recipients text =
    if (scan text).is_balanced
    then tidy ((scan text).complete ++ (scan text).rest ∷ [])
    else tidy (split text)

pub record AcceptedRecipients : Type 0 where
  pub accepted : List Text
  pub too_long : List Text
  pub over_limit : List Text

-- A length below the limit, as the source's comparisons have it.
unfoldable pub is_too_long : Text → Bool
is_too_long recipient = ltb max_address_chars (length recipient)

unfoldable pub fits : Text → Bool
fits recipient = leb (length recipient) max_address_chars

-- `Math.max(0, MAX_RECIPIENTS - existing)`, which is the subtraction on ℕ.
unfoldable pub room : ℕ → ℕ
room existing = max_recipients - existing

unfoldable pub accept_recipients : ℕ → List Text → AcceptedRecipients
accept_recipients existing incoming = record {
  accepted = take (room existing) (filter fits incoming);
  too_long = filter is_too_long incoming;
  over_limit = drop (room existing) (filter fits incoming);
}
