-- ===== src/SanitizeEmail/Remote.antt =====
-- lib/sanitizeEmail.ts, `REMOTE_URL` and `REMOTE_CSS_URL`: what the matchers find, described without
-- them.
use aimail.Base.{
  ℕ, ◌+◌, Bool, true, ◌&&◌, ◌||◌, none, some, [], ◌∷◌, ◌++◌, map, Text, codes, all, is_some,
  is_space, trim_start, leb, ◌≡◌, ◌⊎◌, inl, inr, refl, sym, ap, ◌∙◌, arith, if◌then◌else◌,
}
use aimail.SanitizeEmail.{
  is_same, after, has_slashes, is_remote_head, is_remote_url, after_quote, is_remote_css,
  has_remote_css_url,
}

-- An upper-case letter as its lower-case one.
unfoldable pub lower : ℕ → ℕ
lower d = if leb b'A' d && leb d b'Z' then d + 32 else d

abbrev pub lower_case : Text → Text
lower_case text = map lower text

-- An http or https URL, or one without a scheme, that names another host.
pub data IsHosted (text : Text) : Type 0 where
  hosted :
      (scheme rest : Text)
      → (scheme ≡ []) ⊎ (lower_case scheme ≡ codes "http:") ⊎ (lower_case scheme ≡ codes "https:")
      → text ≡ scheme ++ (codes "//" ++ rest)
      → IsHosted text

-- The same behind blanks.
pub data IsRemoteUrl (text : Text) : Type 0 where
  remote :
      (blanks url : Text)
      → all is_space blanks ≡ true
      → IsHosted url
      → text ≡ blanks ++ url
      → IsRemoteUrl text

-- A CSS text with such a URL in a `url(`, in quotes or not, anywhere in it.
pub data IsRemoteCss (text : Text) : Type 0 where
  remote :
      (before call blanks quote url : Text)
      → lower_case call ≡ codes "url("
      → all is_space blanks ≡ true
      → (quote ≡ []) ⊎ (quote ≡ codes "\"") ⊎ (quote ≡ codes "'")
      → IsRemoteUrl url
      → text ≡ before ++ (call ++ (blanks ++ (quote ++ url)))
      → IsRemoteCss text

same-lower : (d : ℕ) → is_same (lower d) d ≡ true
unfolding lower
same-lower d = ground arith

after_spelled : (start text : Text) → after (lower_case start) (start ++ text) ≡ some text
unfolding after
after_spelled [] text = refl
after_spelled (d ∷ start) text =
    ap (λ b. if b then after (lower_case start) (start ++ text) else none) (same-lower d)
    ∙ after_spelled start text

after_as :
    (word start text : Text) → lower_case start ≡ word → after word (start ++ text) ≡ some text
after_as word start text e = ap (λ w. after w (start ++ text)) (sym e) ∙ after_spelled start text

slashes : (rest : Text) → has_slashes (some (codes "//" ++ rest)) ≡ true
unfolding has_slashes
slashes rest = ap is_some (after_as (codes "//") (codes "//") rest (unfold lower in refl))

one_of : (a b c : Bool) → (a ≡ true) ⊎ (b ≡ true) ⊎ (c ≡ true) → (a || b || c) ≡ true
one_of a b c h = ground arith

is_remote_head-IsHosted : (text : Text) → IsHosted text → is_remote_head text ≡ true
unfolding is_remote_head
is_remote_head-IsHosted text (hosted scheme rest (inl e) t) =
    one_of (has_slashes (some text)) (has_slashes (after (codes "http:") text)) _ (
      inl
        (ap (λ s. has_slashes (some s)) (t ∙ ap (λ s. s ++ (codes "//" ++ rest)) e) ∙ slashes rest))
is_remote_head-IsHosted text (hosted scheme rest (inr (inl e)) t) =
    one_of (has_slashes (some text)) (has_slashes (after (codes "http:") text)) _ (
      inr (
        inl (
          ap (λ s. has_slashes (after (codes "http:") s)) t
          ∙ ap has_slashes (after_as (codes "http:") scheme _ e)
          ∙ slashes rest)))
is_remote_head-IsHosted text (hosted scheme rest (inr (inr e)) t) =
    one_of (has_slashes (some text)) (has_slashes (after (codes "http:") text)) _ (
      inr (
        inr (
          ap (λ s. has_slashes (after (codes "https:") s)) t
          ∙ ap has_slashes (after_as (codes "https:") scheme _ e)
          ∙ slashes rest)))

-- A blank at the start goes, and nothing else does.
both : (a b : Bool) → (a && b) ≡ true → (a ≡ true) × (b ≡ true)
both a b h = ground arith

trim_start-append :
    (blanks text : Text)
    → all is_space blanks ≡ true
    → trim_start (blanks ++ text) ≡ trim_start text
unfolding trim_start
trim_start-append [] text h = refl
trim_start-append (c ∷ blanks) text h =
    let (here, rest) = both (is_space c) (all is_space blanks) h in
    ap (λ b. if b then trim_start (blanks ++ text) else c ∷ blanks ++ text) here
    ∙ trim_start-append blanks text rest

trim_start-letter : (d : ℕ) (text : Text) → lower d ≡ b'h' → trim_start (d ∷ text) ≡ d ∷ text
unfolding trim_start lower
trim_start-letter d text e = ground arith

first_letter :
    {word : Text}
    → (scheme text : Text) → lower_case scheme ≡ b'h' ∷ word
    → trim_start (scheme ++ text) ≡ scheme ++ text
first_letter [] text e = cc
first_letter (d ∷ scheme) text e = trim_start-letter d (scheme ++ text) cc

trim_start-IsHosted : (text : Text) → IsHosted text → trim_start text ≡ text
trim_start-IsHosted text (hosted scheme rest (inl e) t) =
    let plain : text ≡ codes "//" ++ rest = t ∙ ap (λ s. s ++ (codes "//" ++ rest)) e in
    ap trim_start plain ∙ unfold trim_start in refl ∙ sym plain
trim_start-IsHosted text (hosted scheme rest (inr (inl e)) t) =
    ap trim_start t ∙ first_letter scheme _ e ∙ sym t
trim_start-IsHosted text (hosted scheme rest (inr (inr e)) t) =
    ap trim_start t ∙ first_letter scheme _ e ∙ sym t

trim_start-IsRemoteUrl : (text : Text) → IsRemoteUrl text → is_remote_head (trim_start text) ≡ true
trim_start-IsRemoteUrl text (remote blanks url h i t) =
    ap (λ s. is_remote_head (trim_start s)) t
    ∙ ap is_remote_head (trim_start-append blanks url h ∙ trim_start-IsHosted url i)
    ∙ is_remote_head-IsHosted url i

pub is_remote_url-IsRemoteUrl : (text : Text) → IsRemoteUrl text → is_remote_url text ≡ true
unfolding is_remote_url
is_remote_url-IsRemoteUrl text r = trim_start-IsRemoteUrl text r

-- No quote stands before the URL itself.
after_quote-letter : (d : ℕ) (text : Text) → lower d ≡ b'h' → after_quote (d ∷ text) ≡ d ∷ text
unfolding after_quote lower
after_quote-letter d text e = ground arith

first_unquoted :
    {word : Text}
    → (scheme text : Text) → lower_case scheme ≡ b'h' ∷ word
    → after_quote (scheme ++ text) ≡ scheme ++ text
first_unquoted [] text e = cc
first_unquoted (d ∷ scheme) text e = after_quote-letter d (scheme ++ text) cc

after_quote-IsHosted : (text : Text) → IsHosted text → after_quote text ≡ text
after_quote-IsHosted text (hosted scheme rest (inl e) t) =
    let plain : text ≡ codes "//" ++ rest = t ∙ ap (λ s. s ++ (codes "//" ++ rest)) e in
    ap after_quote plain ∙ unfold after_quote in refl ∙ sym plain
after_quote-IsHosted text (hosted scheme rest (inr (inl e)) t) =
    ap after_quote t ∙ first_unquoted scheme _ e ∙ sym t
after_quote-IsHosted text (hosted scheme rest (inr (inr e)) t) =
    ap after_quote t ∙ first_unquoted scheme _ e ∙ sym t

abbrev inside : Text → Text
inside text = trim_start (after_quote (trim_start text))

-- The URL between the brackets, behind a quote or not.
inside-IsRemoteUrl :
    (quote url : Text)
    → (quote ≡ []) ⊎ (quote ≡ codes "\"") ⊎ (quote ≡ codes "'")
    → IsRemoteUrl url
    → is_remote_head (inside (quote ++ url)) ≡ true
inside-IsRemoteUrl quote url (inl e) (remote blanks plain h i t) =
    let bare : trim_start url ≡ plain =
      ap trim_start t ∙ trim_start-append blanks plain h ∙ trim_start-IsHosted plain i in
    ap (λ q. is_remote_head (inside (q ++ url))) e
    ∙ ap (λ s. is_remote_head (trim_start (after_quote s))) bare
    ∙ ap (λ s. is_remote_head (trim_start s)) (after_quote-IsHosted plain i)
    ∙ ap is_remote_head (trim_start-IsHosted plain i)
    ∙ is_remote_head-IsHosted plain i
inside-IsRemoteUrl quote url (inr (inl e)) r =
    ap (λ q. is_remote_head (inside (q ++ url))) e
    ∙ unfold trim_start in unfold after_quote in trim_start-IsRemoteUrl url r
inside-IsRemoteUrl quote url (inr (inr e)) r =
    ap (λ q. is_remote_head (inside (q ++ url))) e
    ∙ unfold trim_start in unfold after_quote in trim_start-IsRemoteUrl url r

called : (a b : Bool) → a ≡ true → (a || b) ≡ true
called a b h = ground arith

called_later : (a b : Bool) → b ≡ true → (a || b) ≡ true
called_later a b h = ground arith

at_call :
    (call text : Text)
    → lower_case call ≡ codes "url("
    → is_remote_css (some text) ≡ true
    → has_remote_css_url (call ++ text) ≡ true
unfolding has_remote_css_url
at_call [] text e h = cc
at_call (d ∷ call) text e h =
    called (is_remote_css (after (codes "url(") (d ∷ call ++ text))) _
      (ap is_remote_css (after_as (codes "url(") (d ∷ call) text e) ∙ h)

behind :
    (before text : Text)
    → has_remote_css_url text ≡ true
    → has_remote_css_url (before ++ text) ≡ true
unfolding has_remote_css_url
behind [] text h = h
behind (c ∷ before) text h =
    called_later (is_remote_css (after (codes "url(") (c ∷ before ++ text))) _
      (behind before text h)

pub has_remote_css_url-IsRemoteCss :
    (text : Text) → IsRemoteCss text → has_remote_css_url text ≡ true
has_remote_css_url-IsRemoteCss text (remote before call blanks quote url c h q r t) =
    ap has_remote_css_url t ∙ behind before _ (at_call call _ c found)
  where
    found : is_remote_css (some (blanks ++ (quote ++ url))) ≡ true
    found =
        unfold is_remote_css in
        (ap (λ s. is_remote_head (trim_start (after_quote s)))
            (trim_start-append blanks (quote ++ url) h)
          ∙ inside-IsRemoteUrl quote url q r)
