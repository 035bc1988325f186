-- ===== src/LiveInbox/Paging.antt =====
-- lib/queries/inboxRefresh.ts: page 1 alone against every loaded page. The service's pages are a
-- function of the cursor, before the change and after it.
use aimail.Base.{
  ℕ, zero, suc, true, false, Option, none, some, List, [], ◌∷◌, String, string_eq, eq_iff, drop,
  ◌≡◌, refl, sym, ap, ◌∙◌, arith, Bool-cases, inl, inr,
}
use aimail.LiveInbox.Refresh.{
  EmailPage, Inbox, swapped, swap, same_cursor, first_page_only, is_on, page_one_of,
  refresh_changed_emails,
}

-- The pages that follow a cursor, so many at most.
unfoldable pub load_after : (Option String → EmailPage) → ℕ → Option String → List EmailPage
load_after fetch zero cursor = []
load_after fetch (suc n) none = []
load_after fetch (suc n) (some c) = fetch (some c) ∷ load_after fetch n (fetch (some c)).next_cursor

-- Every loaded page fetched again, from the first on, so many at most.
unfoldable pub load : (Option String → EmailPage) → ℕ → List EmailPage
load fetch zero = []
load fetch (suc n) = fetch none ∷ load_after fetch n (fetch none).next_cursor

same_cursor→eq : (a b : Option String) → same_cursor a b ≡ true → a ≡ b
unfolding same_cursor
same_cursor→eq none none h = refl
same_cursor→eq (some a) (some b) h = ap some ((eq_iff a b).0 h)
same_cursor→eq none (some b) h = absurd (ground arith)
same_cursor→eq (some a) none h = absurd (ground arith)

-- What a swap rests on.
record IsSwap (changed_ids : List String) (fresh : EmailPage) (inbox : Inbox)
    (pages : List EmailPage) : Type 0 where
  first : EmailPage
  rest : List EmailPage
  loaded : inbox.pages ≡ first ∷ rest
  written : pages ≡ fresh ∷ rest
  edge : fresh.next_cursor ≡ first.next_cursor
  unchanged : is_on changed_ids rest ≡ false

swapped-injective : {p q : List EmailPage} → swapped p ≡ swapped q → p ≡ q
swapped-injective h = cc

head_eq : {a b : EmailPage} {rest kept : List EmailPage} → a ∷ rest ≡ b ∷ kept → a ≡ b
head_eq h = cc

tail_eq : {a b : EmailPage} {rest kept : List EmailPage} → a ∷ rest ≡ b ∷ kept → rest ≡ kept
tail_eq h = cc

module _ (changed_ids : List String) (fresh : EmailPage) (inbox : Inbox)
    (pages : List EmailPage) where
  swap-IsSwap :
      (first : EmailPage) (rest : List EmailPage)
      → inbox.pages ≡ first ∷ rest
      → is_on changed_ids rest ≡ false
      → swap (some fresh) (some (first, rest)) ≡ swapped pages
      → IsSwap changed_ids fresh inbox pages
  unfolding swap
  swap-IsSwap first rest e u h =
      elim (Bool-cases (same_cursor fresh.next_cursor first.next_cursor)) [
        | inl s ↦ record {
          first = first;
          rest = rest;
          loaded = e;
          written = ground arith;
          edge = same_cursor→eq _ _ s;
          unchanged = u;
        }
        | inr s ↦ absurd (ground arith)
      ]

  found-IsSwap :
      (found : List EmailPage)
      → inbox.pages ≡ found
      → swap (some fresh) (page_one_of changed_ids inbox found) ≡ swapped pages
      → IsSwap changed_ids fresh inbox pages
  unfolding page_one_of swap
  found-IsSwap [] e h = absurd (ground arith)
  found-IsSwap (first ∷ rest) e h = elim (Bool-cases (is_on changed_ids rest)) [
    | inl u ↦ absurd (ground arith)
    | inr u ↦ swap-IsSwap first rest e u (ground arith)
  ]

  refresh-IsSwap :
      (before : Option Inbox)
      → refresh_changed_emails changed_ids before (some fresh) (some inbox) ≡ swapped pages
      → IsSwap changed_ids fresh inbox pages
  unfolding refresh_changed_emails first_page_only
  refresh-IsSwap before h = found-IsSwap inbox.pages refl (ground arith)

module _ (old new : Option String → EmailPage)
    (same : (c : String) → new (some c) ≡ old (some c)) where
  load_after-same : (n : ℕ) (c : Option String) → load_after new n c ≡ load_after old n c
  unfolding load_after
  load_after-same zero c = refl
  load_after-same (suc n) none = refl
  load_after-same (suc n) (some c) =
      rw (same c) (ap (λ r. old (some c) ∷ r) (load_after-same n (old (some c)).next_cursor))

  swap-reloads :
      (n : ℕ) (changed_ids : List String) (inbox : Inbox) (pages : List EmailPage)
      → inbox.pages ≡ load old n
      → IsSwap changed_ids (new none) inbox pages
      → pages ≡ load new n
  unfolding load
  swap-reloads zero changed_ids inbox pages e w = absurd (not_loaded (sym w.loaded ∙ e))
    where
      not_loaded : ¬ (w.first ∷ w.rest ≡ [])
      not_loaded p = cc
  swap-reloads (suc n) changed_ids inbox pages e w =
      let both = sym w.loaded ∙ e in
      w.written
      ∙ ap (λ r. new none ∷ r)
          (tail_eq both
            ∙ sym (load_after-same n (old none).next_cursor)
            ∙ ap (load_after new n) (sym (w.edge ∙ ap (λ p. p.next_cursor) (head_eq both))))

-- When page 1 alone was fetched again and put in, and the service's later pages are what they were,
-- the list is the one that fetching every loaded page again would give, so that no row vanishes or
-- shows twice; the pages that were kept, all but the first, hold none of the changed emails.
pub refresh-reloads :
    (old new : Option String → EmailPage) (n : ℕ) (changed_ids : List String)
    (before : Option Inbox) (inbox : Inbox) (pages : List EmailPage)
    → ((c : String) → new (some c) ≡ old (some c))
    → inbox.pages ≡ load old n
    → refresh_changed_emails changed_ids before (some (new none)) (some inbox) ≡ swapped pages
    → (pages ≡ load new n) × (is_on changed_ids (drop 1 pages) ≡ false)
refresh-reloads old new n changed_ids before inbox pages same e h =
    let w = refresh-IsSwap changed_ids (new none) inbox pages before h in
    (swap-reloads old new same n changed_ids inbox pages e w, rw w.written w.unchanged)
