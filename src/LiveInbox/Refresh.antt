-- ===== src/LiveInbox/Refresh.antt =====
-- lib/queries/inboxRefresh.ts: page 1 alone fetched again, or every loaded page. An email is its id
-- here; the pages of the cached list are in the order they were loaded.
use aimail.Base.{
  Bool, true, false, ◌||◌, not, Option, none, some, List, [], ◌∷◌, String, ◌===◌, string_eq, any,
  includes, length, ltb, is_some, if◌then◌else◌,
}

pub record EmailPage : Type 0 where
  pub emails : List String
  pub next_cursor : Option String

-- `InfiniteData` with the query's own flags: watched, and a fetch under way.
pub record Inbox : Type 0 where
  pub pages : List EmailPage
  pub is_active : Bool
  pub is_fetching : Bool

unfoldable pub is_on : List String → List EmailPage → Bool
is_on changed_ids pages = any (λ page. any (λ id. includes changed_ids id) page.emails) pages

unfoldable pub page_one_of :
    List String → Inbox → List EmailPage → Option (EmailPage × List EmailPage)
page_one_of changed_ids inbox [] = none
page_one_of changed_ids inbox (first ∷ rest) =
    if ltb (length (first ∷ rest)) 2
      || not inbox.is_active
      || inbox.is_fetching
      || is_on changed_ids rest
    then none
    else some (first, rest)

-- `firstPageOnly`: page 1 and the pages after it, when page 1 alone may be refreshed.
unfoldable pub first_page_only : List String → Option Inbox → Option (EmailPage × List EmailPage)
first_page_only changed_ids none = none
first_page_only changed_ids (some inbox) = page_one_of changed_ids inbox inbox.pages

unfoldable pub same_cursor : Option String → Option String → Bool
same_cursor none none = true
same_cursor (some a) (some b) = a === b
same_cursor _ _ = false

-- What comes of it: the pages as they are written, or every page fetched again.
pub data Refreshed : Type 0 where
  swapped : List EmailPage → Refreshed
  invalidated : Refreshed

unfoldable pub swap : Option EmailPage → Option (EmailPage × List EmailPage) → Refreshed
swap (some fresh) (some (first, rest)) =
    if same_cursor fresh.next_cursor first.next_cursor then swapped (fresh ∷ rest) else invalidated
swap _ _ = invalidated

-- `refreshChangedEmails`: the list before the fetch, page 1 as fetched (`none` when that failed),
-- and the list as it stands when the fetch ends.
unfoldable pub refresh_changed_emails :
    List String → Option Inbox → Option EmailPage → Option Inbox → Refreshed
refresh_changed_emails changed_ids before fresh after =
    if is_some (first_page_only changed_ids before)
    then swap fresh (first_page_only changed_ids after)
    else invalidated
