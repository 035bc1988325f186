-- ===== src/SanitizeEmail/Local.antt =====
-- lib/sanitizeEmail.ts: what a node fetches from another host, described without the matchers.
use aimail.Base.{
  ℕ, Bool, true, false, not, ◌||◌, some, List, [], ◌∷◌, ◌++◌, Text, String, string_eq, all, any,
  ◌==◌, ◌≡◌, refl, sym, ap, ◌∙◌, ◌&&◌, arith, if◌then◌else◌,
}
use aimail.Base.Maps.{get}
use aimail.SanitizeEmail.{
  Node, has_remote, is_remote, is_remote_url, has_remote_css_url, add_char, comma_parts,
}
use aimail.SanitizeEmail.Remote.{
  IsRemoteUrl, IsRemoteCss, is_remote_url-IsRemoteUrl, has_remote_css_url-IsRemoteCss,
}
use aimail.SanitizeEmail.Blocked.{IsClean}

abbrev pub HasNoComma : Text → Type 0
HasNoComma part = all (λ c. not (c == b',')) part ≡ true

-- A stretch of a text from its start or a comma to the next comma or the end.
pub data IsPart (part : Text) : Text → Type 0 where
  whole : (value : Text) → HasNoComma part → value ≡ part → IsPart part value
  first :
      (value behind : Text) → HasNoComma part → value ≡ part ++ b',' ∷ behind → IsPart part value
  later :
      (value before rest : Text)
      → IsPart part rest
      → value ≡ before ++ b',' ∷ rest
      → IsPart part value

-- An attribute that names another host, a `srcset` that does in one of its parts, and a style with a
-- `url(` that does.
pub data Fetches (node : Node) : Type 0 where
  source :
      (value : Text) → get "src" node.attributes ≡ some value → IsRemoteUrl value → Fetches node
  background :
      (value : Text)
      → get "background" node.attributes ≡ some value
      → IsRemoteUrl value
      → Fetches node
  candidate :
      (value part : Text)
      → get "srcset" node.attributes ≡ some value
      → IsPart part value
      → IsRemoteUrl part
      → Fetches node
  styled :
      (value : Text) → get "style" node.attributes ≡ some value → IsRemoteCss value → Fetches node

-- Nothing of the node comes from another host by these.
abbrev pub IsLocal : Node → Type 0
IsLocal node = ¬ Fetches node

module _ (test : Text → Bool) where
  any_later : List Text → Bool
  any_later [] = false
  any_later (part ∷ parts) = any test parts

  any_later-add_char : (c : ℕ) (parts : List Text) → any_later (add_char c parts) ≡ any_later parts
  unfolding any_later add_char
  any_later-add_char c [] = refl
  any_later-add_char c (part ∷ parts) = refl

  any_later-any : (parts : List Text) → any_later parts ≡ true → any test parts ≡ true
  unfolding any_later
  any_later-any [] h = cc
  any_later-any (part ∷ parts) h = ground arith

  at_comma :
      (b : Bool) (c : ℕ) (parts : List Text)
      → any_later parts ≡ true
      → any_later (if b then [] ∷ parts else add_char c parts) ≡ true
  at_comma true c parts h = unfold any_later in any_later-any parts h
  at_comma false c parts h = any_later-add_char c parts ∙ h

  behind_comma :
      (before rest : Text)
      → any test (comma_parts rest) ≡ true
      → any_later (comma_parts (before ++ b',' ∷ rest)) ≡ true
  unfolding comma_parts
  behind_comma [] rest h = unfold any_later in h
  behind_comma (c ∷ before) rest h = at_comma (c == b',') c _ (behind_comma before rest h)

both : (a b : Bool) → (not a && b) ≡ true → (a ≡ false) × (b ≡ true)
both a b h = ground arith

comma_parts-whole : (part : Text) → HasNoComma part → comma_parts part ≡ part ∷ []
unfolding comma_parts
comma_parts-whole [] h = refl
comma_parts-whole (c ∷ part) h =
    let (other, rest) = both (c == b',') _ h in
    ap (λ b. if b then [] ∷ comma_parts part else add_char c (comma_parts part)) other
    ∙ ap (add_char c) (comma_parts-whole part rest)
    ∙ unfold add_char in refl

comma_parts-first :
    (part behind : Text)
    → HasNoComma part
    → comma_parts (part ++ b',' ∷ behind) ≡ part ∷ comma_parts behind
unfolding comma_parts
comma_parts-first [] behind h = refl
comma_parts-first (c ∷ part) behind h =
    let (other, rest) = both (c == b',') _ h in
    ap
      (λ b.
        if b
        then [] ∷ comma_parts (part ++ b',' ∷ behind)
        else add_char c (comma_parts (part ++ b',' ∷ behind)))
      other
    ∙ ap (add_char c) (comma_parts-first part behind rest)
    ∙ unfold add_char in refl

any-IsPart :
    (test : Text → Bool) (part value : Text)
    → IsPart part value
    → test part ≡ true
    → any test (comma_parts value) ≡ true
any-IsPart test part _ (whole value n t) h =
    ap (λ s. any test (comma_parts s)) t
    ∙ ap (any test) (comma_parts-whole part n)
    ∙ ap (λ b. b || false) h
any-IsPart test part _ (first value behind n t) h =
    ap (λ s. any test (comma_parts s)) t
    ∙ ap (any test) (comma_parts-first part behind n)
    ∙ ap (λ b. b || any test (comma_parts behind)) h
any-IsPart test part _ (later value before rest p t) h =
    ap (λ s. any test (comma_parts s)) t
    ∙ any_later-any test _ (behind_comma test before rest (any-IsPart test part rest p h))

-- A node in which the matchers find nothing fetches nothing.
found :
    (test : Text → Bool) (name : String) (node : Node) (value : Text)
    → get name node.attributes ≡ some value
    → has_remote (get name node.attributes) test ≡ false
    → test value ≡ false
unfolding has_remote
found test name node value e h = sym (ap (λ o. has_remote o test) e) ∙ h

clash : (b : Bool) → b ≡ true → b ≡ false → ⊥
clash b h k = ground arith

pub clean-IsLocal : (node : Node) → IsClean node → IsLocal node
unfolding is_remote
clean-IsLocal node c (source value e r) =
    clash _ (is_remote_url-IsRemoteUrl value r) (found (is_remote "src") "src" node value e c.src)
clean-IsLocal node c (background value e r) =
    clash _ (is_remote_url-IsRemoteUrl value r)
      (found (is_remote "background") "background" node value e c.background)
clean-IsLocal node c (candidate value part e p r) =
    clash _ (any-IsPart is_remote_url part value p (is_remote_url-IsRemoteUrl part r))
      (found (is_remote "srcset") "srcset" node value e c.srcset)
clean-IsLocal node c (styled value e r) =
    clash _ (has_remote_css_url-IsRemoteCss value r)
      (found has_remote_css_url "style" node value e c.style)
