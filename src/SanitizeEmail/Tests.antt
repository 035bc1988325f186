-- ===== src/SanitizeEmail/Tests.antt =====
-- lib/sanitizeEmail.ts: a tracking pixel, a link and an image within the email.
use aimail.Base.{
  inr, ◌+◌, true, false, [], ◌∷◌, codes, filter, length, All, trim_start, ◌≡◌, refl, string_eq,
  if◌then◌else◌,
}
use aimail.Base.Maps.{get, put, delete}
use aimail.SanitizeEmail.{
  Node, sanitize, hook, open_links_in_new_tab, block_remote_images, block, has_remote, is_remote,
  is_remote_url, is_remote_head, after, has_slashes, has_remote_css_url, is_remote_css, after_quote,
  comma_parts, add_char, count_if,
}
use aimail.SanitizeEmail.Blocked.{fetches}
use aimail.SanitizeEmail.Local.{IsLocal, IsPart, whole, later}
use aimail.SanitizeEmail.Remote.{IsRemoteUrl, remote, hosted, lower}
use aimail.SanitizeEmail.Hooks.{IsSafeLink, sanitize_lem}

abbrev pixel : Node
pixel = record {
  tag_name = "IMG";
  attributes = ("src", codes " HTTPS://t.co/p") ∷ ("alt", codes "") ∷ [];
}

abbrev link : Node
link = record { tag_name = "A"; attributes = ("href", codes "https://a.b") ∷ [] }

abbrev inline : Node
inline = record {
  tag_name = "IMG";
  attributes =
      ("src", codes "cid:1")
      ∷ ("style", codes "color:red")
      ∷ ("srcset", codes "cid:2, //x.y/2")
      ∷ [];
}

cleaned : sanitize false 0 (pixel ∷ link ∷ inline ∷ []) ≡ (
  record { tag_name = "IMG"; attributes = ("alt", codes "") ∷ [] }
      ∷ record {
        tag_name = "A";
        attributes =
            ("href", codes "https://a.b")
            ∷ ("target", codes "_blank")
            ∷ ("rel", codes "noopener noreferrer")
            ∷ [];
      }
      ∷ record {
        tag_name = "IMG";
        attributes = ("src", codes "cid:1") ∷ ("style", codes "color:red") ∷ [];
      }
      ∷ [],
  2,
)
unfolding sanitize hook open_links_in_new_tab block_remote_images block has_remote is_remote
    is_remote_url is_remote_head after has_slashes has_remote_css_url is_remote_css after_quote
    comma_parts add_char count_if get put delete trim_start
cleaned = refl

css_url : has_remote_css_url (codes "background: URL( 'http://a.b/c' )") ≡ true
unfolding is_remote_head after has_slashes has_remote_css_url is_remote_css after_quote trim_start
css_url = refl

-- The pixel's address, and the second of the candidates, as the description has them.
pixel_is_remote : IsRemoteUrl (codes " HTTPS://t.co/p")
unfolding lower
pixel_is_remote =
    remote (codes " ") (codes "HTTPS://t.co/p") refl
      (hosted (codes "HTTPS:") (codes "t.co/p") (inr (inr refl)) refl) refl

candidate_is_part : IsPart (codes " //x.y/2") (codes "cid:2, //x.y/2")
candidate_is_part =
    later (codes "cid:2, //x.y/2") (codes "cid:2") (codes " //x.y/2")
      (whole (codes " //x.y/2") refl refl) refl

sanitize_lem_example :
    (false ≡ false → All IsLocal (sanitize false 0 (pixel ∷ link ∷ [])).0)
    × All IsSafeLink (sanitize false 0 (pixel ∷ link ∷ [])).0
    × ((sanitize false 0 (pixel ∷ link ∷ [])).1
        ≡ (if false then 0 else 0 + length (filter fetches (pixel ∷ link ∷ []))))
sanitize_lem_example = sanitize_lem false 0 (pixel ∷ link ∷ [])
