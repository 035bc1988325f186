-- ===== src/SearchChat.antt =====
-- components/InboxChatWidget.tsx: the inbox assistant, under the key that components/AppShell.tsx gives
-- it. Searches are sent as values, their answers are events; scrolling, focus and markup are left out.
use aimail.Base.{
  ℕ, zero, suc, ◌+◌, ◌-◌, Bool, true, false, not, ◌&&◌, ◌||◌, Option, none, some, List, [], ◌∷◌,
  ◌++◌, map, Text, String, ◌===◌, string_eq, nat_eq, filter, length, drop, trim, is_empty, or_else,
  if◌then◌else◌,
}
use aimail.Base.Maps.{get, put}
use aimail.SearchChat.Replace.{replace_all}
pub mod Replace
pub mod Private
pub mod Answers
pub mod Tests

-- lib/api/search.ts.
pub data SourceType : Type 0 where
  email document : SourceType

pub record SearchSource : Type 0 where
  pub source_type : SourceType
  pub id : String
  pub title : Text
  pub subtitle : Text
  pub snippet : Text

pub data Role : Type 0 where
  user assistant : Role

pub record ChatMessage : Type 0 where
  pub role : Role
  pub content : Text
  pub sources : List SearchSource
  pub has_restored_pii : Bool

pub record SearchRequest : Type 0 where
  pub query : Text
  pub history : List ChatMessage
  pub k_emails : ℕ
  pub k_docs : ℕ
  pub restore : Bool

pub record SearchResponse : Type 0 where
  pub answer : Text
  pub sources : List SearchSource
  pub sender_vault : List (Text × Text)
  pub has_restored_pii : Bool

-- What the widget holds. A search under way is the list of messages its answer is put behind.
pub record Chat : Type 0 where
  pub is_open : Bool
  pub input : Text
  pub is_loading : Bool
  pub messages : List ChatMessage
  pub expanded : List (ℕ × Bool)
  pub under_way : Option (List ChatMessage)

abbrev pub new_chat : Chat
new_chat = record {
  is_open = false;
  input = [];
  is_loading = false;
  messages = [];
  expanded = [];
  under_way = none;
}

-- The widget under its key, with every search that was sent, and for whom.
pub record Assistant : Type 0 where
  pub account : Option String
  pub chat : Chat
  pub sent : List (Option String × SearchRequest)

abbrev pub plain : Role → Text → ChatMessage
plain role content = record {
  role = role;
  content = content;
  sources = [];
  has_restored_pii = false;
}

unfoldable pub is_reader : Role → Bool
is_reader user = true
is_reader assistant = false

abbrev pub is_user : ChatMessage → Bool
is_user m = is_reader m.role

-- `messages.filter(user).slice(-3)`, with the role and the content only.
unfoldable pub last_three {ℓ} : {A : Type ℓ} → List A → List A
last_three xs = drop (length xs - 3) xs

unfoldable pub history_for : List ChatMessage → List ChatMessage
history_for messages = map (λ m. plain m.role m.content) (last_three (filter is_user messages))

unfoldable pub request_for : Bool → Text → List ChatMessage → SearchRequest
request_for is_hiding text messages = record {
  query = text;
  history = history_for messages;
  k_emails = 5;
  k_docs = 3;
  restore = not is_hiding;
}

unfoldable pub with_question : Text → List ChatMessage → List ChatMessage
with_question text messages = messages ++ plain user text ∷ []

-- The part of `handleSend` up to the search.
unfoldable pub begin_search : Bool → Text → Assistant → Assistant
begin_search is_hiding text a = record a {
  chat = record a.chat {
    messages = with_question text a.chat.messages;
    input = [];
    is_loading = true;
    under_way = some (with_question text a.chat.messages);
  };
  sent = a.sent ++ (a.account, request_for is_hiding text a.chat.messages) ∷ [];
}

unfoldable pub ask : Bool → Text → Assistant → Assistant
ask is_hiding text a =
    if is_empty text || a.chat.is_loading then a else begin_search is_hiding text a

unfoldable pub handle_send : Bool → Option Text → Assistant → Assistant
handle_send is_hiding query_text a = ask is_hiding (trim (or_else query_text a.chat.input)) a

-- The senders' placeholders filled in, one after another.
unfoldable pub restore_answer : List (Text × Text) → Text → Text
restore_answer [] answer = answer
restore_answer ((placeholder, real_sender) ∷ vault) answer =
    restore_answer vault (replace_all placeholder real_sender answer)

unfoldable pub answer_message : SearchResponse → ChatMessage
answer_message r = record {
  role = assistant;
  content = restore_answer r.sender_vault r.answer;
  sources = r.sources;
  has_restored_pii = r.has_restored_pii;
}

-- The part of `handleSend` after the search: the answer, or the error's text.
unfoldable pub end_search : Option (List ChatMessage) → ChatMessage → Chat → Chat
end_search none reply chat = chat
end_search (some updated) reply chat = record chat {
  messages = updated ++ reply ∷ [];
  is_loading = false;
  under_way = none;
}

-- `handleResetChat`.
unfoldable pub reset_chat : Chat → Chat
reset_chat chat = record chat { messages = []; expanded = []; input = [] }

unfoldable pub is_true : Option Bool → Bool
is_true (some true) = true
is_true _ = false

unfoldable pub toggle_source : ℕ → Chat → Chat
toggle_source n chat = record chat {
  expanded = put n (not (is_true (get n chat.expanded))) chat.expanded;
}

-- Where `handleSourceClick` goes.
pub data Place : Type 0 where
  inbox knowledge : String → Place

unfoldable pub place_at : SourceType → String → Place
place_at email id = inbox id
place_at document id = knowledge id

abbrev pub place_of : SearchSource → Place
place_of source = place_at source.source_type source.id

-- `key`, which is the account (no address is "signed-out"); a change of it mounts a new widget, that no answer to the old one
-- reaches. Within a key the effect on the session empties the chat when there is no session.
unfoldable pub same_key : Option String → Option String → Bool
same_key none none = true
same_key (some a) (some b) = a === b
same_key _ _ = false

unfoldable pub clear_chat : Chat → Chat
clear_chat chat = record (reset_chat chat) { is_open = false }

unfoldable pub on_session : Option String → Assistant → Assistant
on_session none a =
    if same_key a.account none
    then record a { account = none; chat = clear_chat a.chat }
    else record a { account = none; chat = new_chat }
on_session (some who) a =
    if same_key a.account (some who) then a else record a { account = some who; chat = new_chat }

pub data ChatEvent : Type 0 where
  session_changed : Option String → ChatEvent
  typed : Text → ChatEvent
  sent_typed : Bool → ChatEvent
  sent_prompt : Bool → Text → ChatEvent
  answered : SearchResponse → ChatEvent
  failed : Text → ChatEvent
  reset toggled : ChatEvent
  source_toggled : ℕ → ChatEvent

unfoldable pub with_chat : (Chat → Chat) → Assistant → Assistant
with_chat change a = record a { chat = change a.chat }

-- What the reader does while the widget is shown.
unfoldable pub act : ChatEvent → Assistant → Assistant
act (typed text) a = with_chat (λ chat. record chat { input = text }) a
act (sent_typed is_hiding) a = handle_send is_hiding none a
act (sent_prompt is_hiding prompt) a = handle_send is_hiding (some prompt) a
act reset a = with_chat reset_chat a
act toggled a = with_chat (λ chat. record chat { is_open = not chat.is_open }) a
act (source_toggled n) a = with_chat (toggle_source n) a
act _ a = a

-- Signed out, the widget shows nothing.
unfoldable pub act_if_shown : Option String → ChatEvent → Assistant → Assistant
act_if_shown none e a = a
act_if_shown (some who) e a = act e a

unfoldable pub chat_step : ChatEvent → Assistant → Assistant
chat_step (session_changed session) a = on_session session a
chat_step (answered r) a = with_chat (λ chat. end_search chat.under_way (answer_message r) chat) a
chat_step (failed message) a =
    with_chat (λ chat. end_search chat.under_way (plain assistant message) chat) a
chat_step e a = act_if_shown a.account e a

unfoldable pub run_chat : List ChatEvent → Assistant → Assistant
run_chat [] a = a
run_chat (e ∷ events) a = run_chat events (chat_step e a)
