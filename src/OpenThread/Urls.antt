-- ===== src/OpenThread/Urls.antt =====
-- extension/gmailThread.ts: which conversation a Gmail page shows. The URL's hash is a parameter.
use aimail.Base.{
  ℕ, zero, suc, ◌+◌, ◌*◌, ◌-◌, ◌/◌, ◌%◌, Bool, true, false, not, ◌&&◌, ◌||◌, Option, none, some,
  List, [], ◌∷◌, Text, codes, all, drop, length, find, is_empty, ltb, leb, ◌==◌, if◌then◌else◌,
}

-- `startsWith`.
unfoldable pub starts_with : Text → Text → Bool
starts_with [] url = true
starts_with (c ∷ start) [] = false
starts_with (c ∷ start) (d ∷ url) = c == d && starts_with start url

unfoldable pub is_gmail_url : Option Text → Bool
is_gmail_url none = false
is_gmail_url (some url) = starts_with (codes "https://mail.google.com/") url

abbrev pub is_digit : ℕ → Bool
is_digit c = leb b'0' c && leb c b'9'

abbrev pub is_hex_digit : ℕ → Bool
is_hex_digit c = is_digit c || leb b'a' c && leb c b'f'

abbrev pub is_word_char : ℕ → Bool
is_word_char c = is_digit c || leb b'a' c && leb c b'z' || leb b'A' c && leb c b'Z'

-- `HEX_THREAD_ID` and `CONVERSATION_SEGMENT`.
unfoldable pub is_hex_thread_id : Text → Bool
is_hex_thread_id t = leb 12 (length t) && leb (length t) 20 && all is_hex_digit t

unfoldable pub is_conversation_segment : Text → Bool
is_conversation_segment t = leb 16 (length t) && all is_word_char t

-- `split("/")`, and its last part.
unfoldable pub add_char : ℕ → List Text → List Text
add_char c [] = (c ∷ []) ∷ []
add_char c (part ∷ parts) = (c ∷ part) ∷ parts

unfoldable pub segments : Text → List Text
segments [] = [] ∷ []
segments (c ∷ t) = let rest = segments t in if c == b'/' then [] ∷ rest else add_char c rest

unfoldable pub last_of : List Text → Text
last_of [] = []
last_of (part ∷ []) = part
last_of (part ∷ next ∷ parts) = last_of (next ∷ parts)

-- `isConversationUrl` of the URL's hash with its "#".
unfoldable pub is_conversation : Text → Bool
is_conversation hash =
    let parts = segments (drop 1 hash) in
    ltb 1 (length parts) && is_conversation_segment (last_of parts)

-- `BigInt(digits)`.
unfoldable pub number_from : ℕ → Text → ℕ
number_from n [] = n
number_from n (c ∷ t) = number_from (10 * n + (c - b'0')) t

-- A hexadecimal digit, and `toString(16)`, with as many digits as the number of rounds at most.
abbrev pub hex_digit : ℕ → ℕ
hex_digit d = if ltb d 10 then b'0' + d else b'a' + (d - 10)

unfoldable pub hex_from : ℕ → ℕ → Text → Text
hex_from zero n later = later
hex_from (suc rounds) n later =
    let shifted = hex_from rounds (n / 16) (hex_digit (n % 16) ∷ later) in
    if ltb n 16 then hex_digit n ∷ later else shifted

unfoldable pub hex : ℕ → Text
hex n = hex_from (suc n) n []

-- `hexFromPermId`.
unfoldable pub hex_from_perm_id : Text → Option Text
hex_from_perm_id perm_id =
    let digits = drop 9 perm_id in
    if starts_with (codes "thread-f:") perm_id && not (is_empty digits) && all is_digit digits
    then some (hex (number_from 0 digits))
    else none

-- `threadIdFromUrl` of the URL's hash.
unfoldable pub thread_id_from_hash : Text → Option Text
thread_id_from_hash hash =
    if is_hex_thread_id (last_of (segments hash)) then some (last_of (segments hash)) else none

-- An element that carries one of the attributes, as a list of these in the page's order.
pub record Tagged : Type 0 where
  pub attribute : Option Text
  pub is_visible : Bool

unfoldable pub attribute_of : Option Tagged → Option Text
attribute_of none = none
attribute_of (some element) = element.attribute

unfoldable pub first_visible : List Tagged → Option Text
first_visible elements = attribute_of (find (λ e. e.is_visible) elements)

unfoldable pub legacy_id : Option Text → Option Text
legacy_id none = none
legacy_id (some id) = if is_hex_thread_id id then some id else none

unfoldable pub perm_hex : Option Text → Option Text
perm_hex none = none
perm_hex (some id) = if is_empty id then none else hex_from_perm_id id

unfoldable pub first_some : Option Text → Option Text → Option Text
first_some none b = b
first_some (some a) b = some a

-- `threadIdFromPage`, of the elements with the old and the new attribute and the URL's hash.
unfoldable pub thread_id_from_page : List Tagged → List Tagged → Text → Option Text
thread_id_from_page legacy perm hash =
    if not (is_conversation hash)
    then none
    else first_some (legacy_id (first_visible legacy))
        (first_some (perm_hex (first_visible perm)) (thread_id_from_hash hash))
