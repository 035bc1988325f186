-- ===== src/SanitizeEmail/Hooks.antt =====
-- lib/sanitizeEmail.ts: every node of an email.
use aimail.Base.{
  ℕ, ◌+◌, Bool, true, false, not, ◌||◌, some, List, [], ◌∷◌, Text, codes, String, ◌===◌, string_eq,
  filter, length, All, is_some, ◌≡◌, refl, sym, ap, ◌∙◌, arith, eq_refl, if_rule, if◌then◌else◌,
}
use aimail.Base.Maps.{get, put, get-put}
use aimail.SanitizeEmail.{
  Node, has_remote, is_remote, has_remote_css_url, with_attribute, open_links_in_new_tab, count_if,
  hook, sanitize,
}
use aimail.SanitizeEmail.Local.{IsLocal, clean-IsLocal}
use aimail.SanitizeEmail.Blocked.{fetches, IsBlocked, block-IsBlocked}

-- A link leaves the dashboard as it is: it opens elsewhere, and cannot reach back.
pub record IsSafeLink (node : Node) : Type 0 where
  pub opens :
      (node.tag_name === "A") ≡ true
      → is_some (get "href" node.attributes) ≡ true
      → (get "target" node.attributes ≡ some (codes "_blank"))
        × (get "rel" node.attributes ≡ some (codes "noopener noreferrer"))

get_put_same :
    (name : String) (v : Text) (m : List (String × Text)) → get name (put name v m) ≡ some v
get_put_same name v m =
    get-put name name v m ∙ ap (λ b. if b then some v else get name m) (eq_refl name)

get_put_other :
    (name other : String) (v : Text) (m : List (String × Text))
    → (name === other) ≡ false
    → get other (put name v m) ≡ get other m
get_put_other name other v m h =
    get-put name other v m ∙ ap (λ b. if b then some v else get other m) h

module _ (node : Node) where
  linked : Node
  linked =
      with_attribute "rel" (codes "noopener noreferrer")
        (with_attribute "target" (codes "_blank") node)

  linked-get :
      (name : String)
      → ("target" === name) ≡ false
      → ("rel" === name) ≡ false
      → get name linked.attributes ≡ get name node.attributes
  unfolding linked
  linked-get name e f =
      get_put_other "rel" name _ (put "target" (codes "_blank") node.attributes) f
      ∙ get_put_other "target" name _ node.attributes e

  linked-IsSafeLink : IsSafeLink linked
  unfolding linked
  linked-IsSafeLink = record {
    opens = λ t h. (
      get_put_other "rel" "target" _ (put "target" (codes "_blank") node.attributes) refl
          ∙ get_put_same "target" (codes "_blank") node.attributes,
      get_put_same "rel" (codes "noopener noreferrer")
          (put "target" (codes "_blank") node.attributes),
    );
  }

  opened-get :
      (name : String)
      → ("target" === name) ≡ false
      → ("rel" === name) ≡ false
      → get name (open_links_in_new_tab node).attributes ≡ get name node.attributes
  unfolding open_links_in_new_tab linked
  opened-get name e f =
      if_rule (λ (n : Node). get name n.attributes ≡ get name node.attributes)
        (not (node.tag_name === "A") || not (is_some (get "href" node.attributes))) (λ _. refl)
        (λ _. linked-get name e f)

  opened-IsSafeLink : IsSafeLink (open_links_in_new_tab node)
  unfolding open_links_in_new_tab linked
  opened-IsSafeLink =
      if_rule IsSafeLink (not (node.tag_name === "A") || not (is_some (get "href" node.attributes)))
        (λ h. record { opens = λ t k. absurd (ground arith) }) (λ _. linked-IsSafeLink)

  opened-fetches : fetches (open_links_in_new_tab node) ≡ fetches node
  opened-fetches =
      joined (ap (λ o. has_remote o (is_remote "src")) (opened-get "src" refl refl))
        (ap (λ o. has_remote o (is_remote "srcset")) (opened-get "srcset" refl refl))
        (ap (λ o. has_remote o (is_remote "background")) (opened-get "background" refl refl))
        (ap (λ o. has_remote o has_remote_css_url) (opened-get "style" refl refl))
    where
      joined :
          {a b c d a' b' c' d' : Bool}
          → a ≡ a'
          → b ≡ b'
          → c ≡ c'
          → d ≡ d'
          → (a || b || c || d) ≡ (a' || b' || c' || d')
      joined ea eb ec ed = ground arith

-- Blocking leaves a link as safe as it was.
blocked-IsSafeLink :
    (node : Node) (r : Node × Bool) → IsBlocked node r → IsSafeLink node → IsSafeLink r.0
blocked-IsSafeLink node r b l = record {
  opens = λ t h.
      let l' =
        l.opens (sym (ap (λ tag. tag === "A") b.tag) ∙ t)
          (sym (ap is_some (b.others "href" refl refl refl refl)) ∙ h) in
      (b.others "target" refl refl refl refl ∙ l'.0, b.others "rel" refl refl refl refl ∙ l'.1);
}

record IsHooked (is_allowing : Bool) (node : Node) (blocked : ℕ) (r : Node × ℕ) : Type 0 where
  is_local : is_allowing ≡ false → IsLocal r.0
  is_safe : IsSafeLink r.0
  counted : r.1 ≡ (if is_allowing then blocked else count_if (fetches node) blocked)

hook-IsHooked :
    (is_allowing : Bool) (node : Node) (blocked : ℕ)
    → IsHooked is_allowing node blocked (hook is_allowing (node, blocked))
unfolding hook
hook-IsHooked true node blocked = record {
  is_local = λ e. absurd (ground arith);
  is_safe = opened-IsSafeLink node;
  counted = refl;
}
hook-IsHooked false node blocked =
    let b = block-IsBlocked (open_links_in_new_tab node) in
    record {
      is_local = λ e. clean-IsLocal _ b.is_local;
      is_safe = blocked-IsSafeLink _ _ b (opened-IsSafeLink node);
      counted = ap (λ f. count_if f blocked) (b.found ∙ opened-fetches node);
    }

count_lem :
    (b : Bool) (node : Node) (nodes : List Node) (n m : ℕ)
    → m ≡ count_if b n + length nodes
    → m ≡ n + length (if b then node ∷ nodes else nodes)
unfolding count_if
count_lem true node nodes n m e = omega arith
count_lem false node nodes n m e = e

-- Of an email that is shown without remote images, no node is left with a src or background, or a part
-- of a srcset, that is an http, https or scheme-less URL of another host behind any blanks and in
-- letters of either case, nor with such a URL in a `url(` of its style; and the count goes up by one
-- for each node in which the matchers found one. With the images allowed nothing is counted; and in
-- both cases every link opens in a new tab, cut off from this one.
pub sanitize_lem :
    (is_allowing : Bool) (blocked : ℕ) (nodes : List Node)
    → let r = sanitize is_allowing blocked nodes in
      (is_allowing ≡ false → All IsLocal r.0)
      × All IsSafeLink r.0
      × (r.1 ≡ (if is_allowing then blocked else blocked + length (filter fetches nodes)))
unfolding sanitize
sanitize_lem is_allowing blocked [] = (λ e. tt, tt, ground arith)
sanitize_lem is_allowing blocked (node ∷ nodes) =
    let h = hook-IsHooked is_allowing node blocked in
    let rest = sanitize_lem is_allowing (hook is_allowing (node, blocked)).1 nodes in
    (
      λ e. (h.is_local e, rest.0 e),
      (h.is_safe, rest.1),
      counted is_allowing (hook is_allowing (node, blocked)).1 h.counted _ rest.2,
    )
  where
    counted :
        (allowed : Bool) (n : ℕ)
        → n ≡ (if allowed then blocked else count_if (fetches node) blocked)
        → (m : ℕ) → m ≡ (if allowed then n else n + length (filter fetches nodes))
        → m ≡ (if allowed then blocked else blocked + length (filter fetches (node ∷ nodes)))
    counted true n e m k = k ∙ e
    counted false n e m k =
        count_lem (fetches node) node (filter fetches nodes) blocked m
          (k ∙ ap (λ x. x + length (filter fetches nodes)) e)
