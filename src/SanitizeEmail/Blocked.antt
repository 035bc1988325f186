-- ===== src/SanitizeEmail/Blocked.antt =====
-- lib/sanitizeEmail.ts: one node, with its images from other hosts taken out.
use aimail.Base.{
  Bool, false, ◌||◌, Option, none, List, Text, String, ◌===◌, string_eq, ◌≡◌, refl, ap, ◌∙◌, arith,
  Bool-cases, inl, inr, eq_refl, if◌then◌else◌,
}
use aimail.Base.Maps.{get, delete, get-delete}
use aimail.SanitizeEmail.{
  Node, has_remote, is_remote, has_remote_css_url, block, block_remote_images,
}

abbrev pub remote_at : String → (Text → Bool) → Node → Bool
remote_at name test node = has_remote (get name node.attributes) test

-- The matchers find nothing in the node's image attributes and its style.
pub record IsClean (node : Node) : Type 0 where
  pub src : remote_at "src" (is_remote "src") node ≡ false
  pub srcset : remote_at "srcset" (is_remote "srcset") node ≡ false
  pub background : remote_at "background" (is_remote "background") node ≡ false
  pub style : remote_at "style" has_remote_css_url node ≡ false

-- Whether the matchers find something.
abbrev pub fetches : Node → Bool
fetches node =
    remote_at "src" (is_remote "src") node
    || remote_at "srcset" (is_remote "srcset") node
    || remote_at "background" (is_remote "background") node
    || remote_at "style" has_remote_css_url node

-- What one round does.
record Blocks (name : String) (test : Text → Bool) (node : Node) (b : Bool) (r : Node × Bool)
    : Type 0 where
  clean : remote_at name test r.0 ≡ false
  others :
      (other : String)
      → (name === other) ≡ false
      → get other r.0.attributes ≡ get other node.attributes
  tag : r.0.tag_name ≡ node.tag_name
  found : r.1 ≡ (b || remote_at name test node)

delete_same : (name : String) (m : List (String × Text)) → get name (delete name m) ≡ none
delete_same name m =
    get-delete name name m ∙ ap (λ b. if b then none else get name m) (eq_refl name)

delete_other :
    (name other : String) (m : List (String × Text))
    → (name === other) ≡ false
    → get other (delete name m) ≡ get other m
delete_other name other m h = get-delete name other m ∙ ap (λ b. if b then none else get other m) h

block-Blocks :
    (name : String) (test : Text → Bool) (node : Node) (b : Bool)
    → Blocks name test node b (block name test (node, b))
unfolding block has_remote
block-Blocks name test node b = elim (Bool-cases (remote_at name test node)) [
  | inl h ↦ rw h record {
    clean = none_left (get name (delete name node.attributes)) (delete_same name node.attributes);
    others = λ other e. delete_other name other node.attributes e;
    tag = refl;
    found = ground arith;
  }
  | inr h ↦ rw h record { clean = h; others = λ other e. refl; tag = refl; found = ground arith }
]
  where
    none_left : (o : Option Text) → o ≡ none → has_remote o test ≡ false
    none_left o e = ap (λ x. has_remote x test) e

-- The four rounds of `blockRemoteImages`.
module _ (node : Node) where
  first : Node × Bool
  first = block "src" (is_remote "src") (node, false)

  second : Node × Bool
  second = block "srcset" (is_remote "srcset") first

  third : Node × Bool
  third = block "background" (is_remote "background") second

  fourth : Node × Bool
  fourth = block "style" has_remote_css_url third

  b1 : Blocks "src" (is_remote "src") node false first
  unfolding first
  b1 = block-Blocks "src" (is_remote "src") node false

  b2 : Blocks "srcset" (is_remote "srcset") first.0 first.1 second
  unfolding second
  b2 = block-Blocks "srcset" (is_remote "srcset") first.0 first.1

  b3 : Blocks "background" (is_remote "background") second.0 second.1 third
  unfolding third
  b3 = block-Blocks "background" (is_remote "background") second.0 second.1

  b4 : Blocks "style" has_remote_css_url third.0 third.1 fourth
  unfolding fourth
  b4 = block-Blocks "style" has_remote_css_url third.0 third.1

  all-IsClean : IsClean fourth.0
  all-IsClean = record {
    src =
        ap (λ o. has_remote o (is_remote "src"))
          (b4.others "src" refl ∙ b3.others "src" refl ∙ b2.others "src" refl)
        ∙ b1.clean;
    srcset =
        ap (λ o. has_remote o (is_remote "srcset"))
          (b4.others "srcset" refl ∙ b3.others "srcset" refl)
        ∙ b2.clean;
    background =
        ap (λ o. has_remote o (is_remote "background")) (b4.others "background" refl) ∙ b3.clean;
    style = b4.clean;
  }

  all_found : fourth.1 ≡ fetches node
  all_found =
      let s1 = ap (λ o. has_remote o (is_remote "srcset")) (b1.others "srcset" refl) in
      let s2 =
        ap (λ o. has_remote o (is_remote "background"))
          (b2.others "background" refl ∙ b1.others "background" refl) in
      let s3 =
        ap (λ o. has_remote o has_remote_css_url)
          (b3.others "style" refl ∙ b2.others "style" refl ∙ b1.others "style" refl) in
      b4.found
      ∙ ap (λ b. b || remote_at "style" has_remote_css_url third.0)
          (b3.found
            ∙ ap (λ b. b || remote_at "background" (is_remote "background") second.0)
                (b2.found
                  ∙ ap (λ b. b || remote_at "srcset" (is_remote "srcset") first.0) b1.found))
      ∙ joined _ _ _ _ _ _ _ s1 s2 s3
    where
      joined :
          (a x y z x' y' z' : Bool)
          → x' ≡ x
          → y' ≡ y
          → z' ≡ z
          → ((((false || a) || x') || y') || z') ≡ (a || x || y || z)
      joined a x y z x' y' z' ex ey ez = ground arith

-- What was found is taken out, the node counts as blocked exactly when something was found, and every
-- other attribute stays, as does the tag.
pub record IsBlocked (node : Node) (r : Node × Bool) : Type 0 where
  pub is_local : IsClean r.0
  pub found : r.1 ≡ fetches node
  pub tag : r.0.tag_name ≡ node.tag_name
  pub others :
      (name : String)
      → ("src" === name) ≡ false
      → ("srcset" === name) ≡ false
      → ("background" === name) ≡ false
      → ("style" === name) ≡ false
      → get name r.0.attributes ≡ get name node.attributes

pub block-IsBlocked : (node : Node) → IsBlocked node (block_remote_images node)
unfolding block_remote_images first second third fourth
block-IsBlocked node = record {
  is_local = all-IsClean node;
  found = all_found node;
  tag = (b4 node).tag ∙ (b3 node).tag ∙ (b2 node).tag ∙ (b1 node).tag;
  others = λ name e f g h.
      (b4 node).others name h
      ∙ (b3 node).others name g
      ∙ (b2 node).others name f
      ∙ (b1 node).others name e;
}
