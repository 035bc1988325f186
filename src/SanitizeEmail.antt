-- ===== src/SanitizeEmail.antt =====
-- lib/sanitizeEmail.ts: an email's HTML made safe to show. DOMPurify is not in the repository: of its
-- work the model takes the nodes that it lets through, to each of which it calls the hook once.
use aimail.Base.{
  ℕ, zero, suc, ◌+◌, Bool, true, false, not, ◌&&◌, ◌||◌, Option, none, some, List, [], ◌∷◌, ◌++◌,
  Text, codes, String, ◌===◌, string_eq, any, is_some, trim_start, leb, ◌==◌, if◌then◌else◌,
}
use aimail.Base.Maps.{get, put, delete}
pub mod Remote
pub mod Blocked
pub mod Local
pub mod Hooks
pub mod Tests

pub record Node : Type 0 where
  pub tag_name : String
  pub attributes : List (String × Text)

-- A character as the flag `i` reads it: a lower-case letter stands for its upper case too.
abbrev pub is_same : ℕ → ℕ → Bool
is_same c d = d == c || leb b'a' c && leb c b'z' && d + 32 == c

-- The text after one that it starts with, in either case.
unfoldable pub after : Text → Text → Option Text
after [] text = some text
after (c ∷ start) [] = none
after (c ∷ start) (d ∷ text) = let rest = after start text in if is_same c d then rest else none

unfoldable pub has_slashes : Option Text → Bool
has_slashes none = false
has_slashes (some text) = is_some (after (codes "//") text)

-- `(?:https?:)?\/\/` at the start of a text.
unfoldable pub is_remote_head : Text → Bool
is_remote_head text =
    has_slashes (some text)
    || has_slashes (after (codes "http:") text)
    || has_slashes (after (codes "https:") text)

-- `REMOTE_URL`.
unfoldable pub is_remote_url : Text → Bool
is_remote_url text = is_remote_head (trim_start text)

-- `['"]?`.
unfoldable pub after_quote : Text → Text
after_quote [] = []
after_quote (c ∷ text) = if c == b'"' || c == b'\'' then text else c ∷ text

unfoldable pub is_remote_css : Option Text → Bool
is_remote_css none = false
is_remote_css (some text) = is_remote_head (trim_start (after_quote (trim_start text)))

-- `REMOTE_CSS_URL`, at any place of a text.
unfoldable pub has_remote_css_url : Text → Bool
has_remote_css_url [] = false
has_remote_css_url (c ∷ text) =
    is_remote_css (after (codes "url(") (c ∷ text)) || has_remote_css_url text

-- `split(",")`.
unfoldable pub add_char : ℕ → List Text → List Text
add_char c [] = (c ∷ []) ∷ []
add_char c (part ∷ parts) = (c ∷ part) ∷ parts

unfoldable pub comma_parts : Text → List Text
comma_parts [] = [] ∷ []
comma_parts (c ∷ text) =
    let rest = comma_parts text in if c == b',' then [] ∷ rest else add_char c rest

-- Whether an image attribute's value is fetched from another host.
unfoldable pub is_remote : String → Text → Bool
is_remote name value =
    if name === "srcset" then any is_remote_url (comma_parts value) else is_remote_url value

unfoldable pub has_remote : Option Text → (Text → Bool) → Bool
has_remote none test = false
has_remote (some value) test = test value

abbrev pub without : String → Node → Node
without name node = record node { attributes = delete name node.attributes }

-- One round of the loop, and the style after it, with whether anything was removed.
unfoldable pub block : String → (Text → Bool) → Node × Bool → Node × Bool
block name test (node, is_blocked) =
    if has_remote (get name node.attributes) test
    then (without name node, true)
    else (node, is_blocked)

-- `blockRemoteImages`.
unfoldable pub block_remote_images : Node → Node × Bool
block_remote_images node = block "style" has_remote_css_url (
    block "background" (is_remote "background")
      (block "srcset" (is_remote "srcset") (block "src" (is_remote "src") (node, false))))

abbrev pub with_attribute : String → Text → Node → Node
with_attribute name value node = record node { attributes = put name value node.attributes }

-- `openLinksInNewTab`.
unfoldable pub open_links_in_new_tab : Node → Node
open_links_in_new_tab node =
    if not (node.tag_name === "A") || not (is_some (get "href" node.attributes))
    then node
    else with_attribute "rel" (codes "noopener noreferrer")
        (with_attribute "target" (codes "_blank") node)

-- The hook, with the count of blocked images.
unfoldable pub count_if : Bool → ℕ → ℕ
count_if true n = n + 1
count_if false n = n

unfoldable pub hook : Bool → Node × ℕ → Node × ℕ
hook is_allowing (node, blocked) =
    let opened = open_links_in_new_tab node in
    if is_allowing
    then (opened, blocked)
    else ((block_remote_images opened).0, count_if (block_remote_images opened).1 blocked)

-- `sanitizeEmailHtml`, over the nodes that DOMPurify lets through.
unfoldable pub sanitize : Bool → ℕ → List Node → List Node × ℕ
sanitize is_allowing blocked [] = ([], blocked)
sanitize is_allowing blocked (node ∷ nodes) =
    let hooked = hook is_allowing (node, blocked) in
    let rest = sanitize is_allowing hooked.1 nodes in (hooked.0 ∷ rest.0, rest.1)
