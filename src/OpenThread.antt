-- ===== src/OpenThread.antt =====
-- extension/useOpenThread.ts with extension/gmailThread.ts and extension/messages.ts: the conversation
-- that is open in the active tab's Gmail. What the browser answers, and when, are events; `new URL`
-- is a parameter of the readings of a URL.
use aimail.Base.{
  ℕ, zero, suc, ◌+◌, ◌*◌, ◌-◌, ◌≤◌, Bool, true, false, not, ◌&&◌, ◌||◌, Option, none, some, List,
  [], ◌∷◌, ◌++◌, Text, codes, String, all, drop, length, find, text_eq, is_empty, is_some, or_else,
  ltb, leb, ◌==◌, if◌then◌else◌,
}
pub mod Urls
pub mod Hex
pub mod Current
pub mod Tests

pub data TabState : Type 0 where
  loading not_gmail needs_reload gmail : TabState

pub record OpenThread : Type 0 where
  pub tab : TabState
  pub thread_id : Option Text

-- `chrome.tabs.Tab`, where it has an id, and whether its URL is Gmail's.
pub record Tab : Type 0 where
  pub id : Option ℕ
  pub is_gmail : Bool

-- What the code tells apart in a message.
pub data Field : Type 0 where
  text : Text → Field
  null other : Field

pub record Message : Type 0 where
  pub type : Option Text
  pub thread_id : Option Field

unfoldable pub is_text : Option Text → Text → Bool
is_text none t = false
is_text (some s) t = text_eq s t

-- `isThreadReport`, with the thread that it reports.
unfoldable pub reported_thread : Option Field → Option (Option Text)
reported_thread (some null) = some none
reported_thread (some (text id)) = some (some id)
reported_thread _ = none

unfoldable pub thread_report : Message → Option (Option Text)
thread_report m =
    if is_text m.type (codes "aimail:thread-changed") then reported_thread m.thread_id else none

-- Where a run of `ask` is.
pub data Ask : Type 0 where
  querying done : Ask
  messaging : ℕ → Ask

-- The hook: what is shown, the active tab's id, and the runs of `ask`. `said_by` is the tab whose
-- word the thread on screen is; the code does not keep it.
pub record Panel : Type 0 where
  pub shown : OpenThread
  pub active : Option ℕ
  pub asks : List Ask
  pub said_by : Option ℕ

abbrev pub first_panel : Panel
first_panel = record {
  shown = record { tab = loading; thread_id = none };
  active = none;
  asks = querying ∷ [];
  said_by = none;
}

pub data PanelEvent : Type 0 where
  activated : PanelEvent
  updated : ℕ → Bool → PanelEvent
  queried : ℕ → Option Tab → PanelEvent
  replied : ℕ → Message → PanelEvent
  unreached : ℕ → PanelEvent
  received : Message → Option ℕ → PanelEvent

unfoldable pub start_ask : Panel → Panel
start_ask p = record p { asks = p.asks ++ querying ∷ [] }

unfoldable pub ask_at : ℕ → List Ask → Ask
ask_at n [] = done
ask_at zero (a ∷ asks) = a
ask_at (suc n) (a ∷ asks) = ask_at n asks

unfoldable pub set_ask : ℕ → Ask → List Ask → List Ask
set_ask n b [] = []
set_ask zero b (a ∷ asks) = b ∷ asks
set_ask (suc n) b (a ∷ asks) = a ∷ set_ask n b asks

unfoldable pub show : TabState → Option Text → Option ℕ → Panel → Panel
show tab thread_id said_by p = record p {
  shown = record { tab = tab; thread_id = thread_id };
  said_by = said_by;
}

-- After `chrome.tabs.query`: no tab, or one that is not Gmail's, ends the run.
unfoldable pub on_query : ℕ → Option ℕ → Bool → Panel → Panel
on_query n none is_gmail p =
    show not_gmail none none (record p { active = none; asks = set_ask n done p.asks })
on_query n (some id) is_gmail p =
    if is_gmail
    then record p { active = some id; asks = set_ask n (messaging id) p.asks }
    else show not_gmail none none (record p { active = some id; asks = set_ask n done p.asks })

abbrev pub id_of : Option Tab → Option ℕ
id_of none = none
id_of (some tab) = tab.id

abbrev pub is_gmail_tab : Option Tab → Bool
is_gmail_tab none = false
is_gmail_tab (some tab) = tab.is_gmail

-- A step of a run, as far as the run is there for it.
unfoldable pub query_done : ℕ → Ask → Option Tab → Panel → Panel
query_done n querying tab p = on_query n (id_of tab) (is_gmail_tab tab) p
query_done n _ tab p = p

unfoldable pub reply_done : ℕ → Ask → Message → Panel → Panel
reply_done n (messaging id) m p =
    show gmail (or_else (thread_report m) none) (some id)
      (record p { asks = set_ask n done p.asks })
reply_done n _ m p = p

unfoldable pub reply_failed : ℕ → Ask → Panel → Panel
reply_failed n (messaging id) p =
    show needs_reload none none (record p { asks = set_ask n done p.asks })
reply_failed n _ p = p

unfoldable pub same_tab : Option ℕ → Option ℕ → Bool
same_tab none none = true
same_tab (some a) (some b) = a == b
same_tab _ _ = false

-- `onMessage`.
unfoldable pub on_message : Option (Option Text) → Option ℕ → Panel → Panel
on_message none sender p = p
on_message (some thread_id) sender p =
    if same_tab sender p.active then show gmail thread_id sender p else p

unfoldable pub panel_step : PanelEvent → Panel → Panel
panel_step activated p = start_ask p
panel_step (updated id is_news) p =
    if same_tab (some id) p.active && is_news then start_ask p else p
panel_step (queried n tab) p = query_done n (ask_at n p.asks) tab p
panel_step (replied n m) p = reply_done n (ask_at n p.asks) m p
panel_step (unreached n) p = reply_failed n (ask_at n p.asks) p
panel_step (received m sender) p = on_message (thread_report m) sender p

unfoldable pub run_panel : List PanelEvent → Panel → Panel
run_panel [] p = p
run_panel (e ∷ events) p = run_panel events (panel_step e p)
