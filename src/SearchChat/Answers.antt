-- ===== src/SearchChat/Answers.antt =====
-- components/InboxChatWidget.tsx: the assistant over a history, across accounts and searches.
use aimail.Base.{
  if◌then◌else◌, append_assoc, trim, Bool, true, false, ◌||◌, Option, none, some, List, [], ◌∷◌,
  ◌++◌, Text, String, All, All-append, is_empty, is_some, trim, ◌≡◌, refl, sym, subst, ap, ◌∙◌,
  arith, if_rule,
}
use aimail.SearchChat.{
  ChatMessage, user, is_user, is_reader, Chat, Assistant, new_chat, plain, SearchRequest,
  SearchResponse, request_for, with_question, ask, begin_search, handle_send, end_search,
  reset_chat, clear_chat, same_key, on_session, toggle_source, ChatEvent, session_changed, typed,
  sent_typed, sent_prompt, answered, failed, reset, toggled, source_toggled, with_chat, act,
  act_if_shown, chat_step, run_chat, answer_message,
}
use aimail.SearchChat.Private.{
  Log, IsOwn, IsPrivateLog, any-append, asked_last, log_snoc, request-IsPrivate,
}

abbrev IsOwnWaiting : Option String → Log → Option (List ChatMessage) → Type 0
IsOwnWaiting who log none = Unit
IsOwnWaiting who log (some ms) = All (IsOwn who log) ms

-- The reader's messages, on screen and waiting for an answer, are the account's own questions.
record IsPrivate (a : Assistant) : Type 0 where
  shown : All (IsOwn a.account a.sent) a.chat.messages
  waits : IsOwnWaiting a.account a.sent a.chat.under_way
  log : IsPrivateLog [] a.sent
  counted : a.chat.is_loading ≡ is_some a.chat.under_way

Own-more :
    (who : Option String) (log more : Log) (ms : List ChatMessage)
    → All (IsOwn who log) ms
    → All (IsOwn who (log ++ more)) ms
unfolding IsOwn
Own-more who log more [] h = tt
Own-more who log more (m ∷ ms) h =
    (λ e. any-append who m.content log more (h.0 e), Own-more who log more ms h.1)

-- An answer is not the reader's.
Own-reply :
    (who : Option String) (log : Log) (ms : List ChatMessage) (reply : ChatMessage)
    → is_user reply ≡ false
    → All (IsOwn who log) ms
    → All (IsOwn who log) (ms ++ reply ∷ [])
unfolding IsOwn
Own-reply who log ms reply e h =
    All-append (IsOwn who log) ms (reply ∷ []) h ((λ y. absurd (ground arith)), tt)

begin-IsPrivate :
    (is_hiding : Bool) (text : Text) (a : Assistant)
    → IsPrivate a
    → IsPrivate (begin_search is_hiding text a)
unfolding begin_search with_question IsOwn is_reader request_for
begin-IsPrivate is_hiding text a p = record {
  shown = grown;
  waits = grown;
  log =
      log_snoc [] a.sent a.account request p.log
        (request-IsPrivate a.account a.sent is_hiding text a.chat.messages p.shown);
  counted = refl;
}
  where
    request : SearchRequest
    request = request_for is_hiding text a.chat.messages

    grown :
        All
          (IsOwn a.account (a.sent ++ (a.account, request) ∷ []))
          (a.chat.messages ++ plain user text ∷ [])
    grown =
        All-append (IsOwn a.account (a.sent ++ (a.account, request) ∷ [])) a.chat.messages
          (plain user text ∷ []) (Own-more a.account a.sent _ a.chat.messages p.shown)
          ((λ e. asked_last a.account request a.sent), tt)

asked-IsPrivate :
    (is_hiding : Bool) (text : Text) (a : Assistant)
    → IsPrivate a
    → IsPrivate (ask is_hiding text a)
unfolding ask
asked-IsPrivate is_hiding text a p =
    if_rule IsPrivate (is_empty text || a.chat.is_loading) (λ _. p)
      (λ _. begin-IsPrivate is_hiding text a p)

-- A change of the chat that leaves the messages, or empties them, and the search under way.
chat-IsPrivate :
    (a : Assistant) (chat : Chat)
    → All (IsOwn a.account a.sent) chat.messages
    → chat.under_way ≡ a.chat.under_way
    → chat.is_loading ≡ a.chat.is_loading
    → IsPrivate a
    → IsPrivate (record a { chat = chat })
chat-IsPrivate a chat own same loads p = record {
  shown = own;
  waits = subst (IsOwnWaiting a.account a.sent) (sym same) p.waits;
  log = p.log;
  counted = loads ∙ p.counted ∙ ap is_some (sym same);
}

end-IsPrivate :
    (a : Assistant) (o : Option (List ChatMessage)) (reply : ChatMessage)
    → is_user reply ≡ false
    → IsOwnWaiting a.account a.sent o
    → IsPrivate a
    → IsPrivate (record a { chat = end_search o reply a.chat })
unfolding end_search
end-IsPrivate a none reply e w p = p
end-IsPrivate a (some updated) reply e w p = record {
  shown = Own-reply a.account a.sent updated reply e w;
  waits = tt;
  log = p.log;
  counted = refl;
}

no_account : (who : Option String) → same_key who none ≡ true → who ≡ none
unfolding same_key
no_account none h = refl
no_account (some who) h = absurd (ground arith)

new-IsPrivate :
    (who : Option String) (log : Log)
    → IsPrivateLog [] log
    → IsPrivate (record { account = who; chat = new_chat; sent = log })
new-IsPrivate who log h = record { shown = tt; waits = tt; log = h; counted = refl }

session-IsPrivate :
    (session : Option String) (a : Assistant) → IsPrivate a → IsPrivate (on_session session a)
unfolding on_session clear_chat reset_chat
session-IsPrivate none a p =
    if_rule IsPrivate (same_key a.account none)
      (λ h. record {
        shown = tt;
        waits =
            subst (λ who. IsOwnWaiting who a.sent a.chat.under_way) (no_account a.account h)
              p.waits;
        log = p.log;
        counted = p.counted;
      })
      (λ _. new-IsPrivate _ a.sent p.log)
session-IsPrivate (some who) a p =
    if_rule IsPrivate (same_key a.account (some who)) (λ _. p) (λ _. new-IsPrivate _ a.sent p.log)

act-IsPrivate : (e : ChatEvent) (a : Assistant) → IsPrivate a → IsPrivate (act e a)
unfolding act with_chat handle_send reset_chat toggle_source
act-IsPrivate (session_changed session) a p = p
act-IsPrivate (typed text) a p = chat-IsPrivate a _ p.shown refl refl p
act-IsPrivate (sent_typed is_hiding) a p = asked-IsPrivate is_hiding (trim a.chat.input) a p
act-IsPrivate (sent_prompt is_hiding prompt) a p = asked-IsPrivate is_hiding (trim prompt) a p
act-IsPrivate (answered r) a p = p
act-IsPrivate (failed message) a p = p
act-IsPrivate reset a p = chat-IsPrivate a _ tt refl refl p
act-IsPrivate toggled a p = chat-IsPrivate a _ p.shown refl refl p
act-IsPrivate (source_toggled n) a p = chat-IsPrivate a _ p.shown refl refl p

shown-IsPrivate :
    (who : Option String) (e : ChatEvent) (a : Assistant)
    → IsPrivate a
    → IsPrivate (act_if_shown who e a)
unfolding act_if_shown
shown-IsPrivate none e a p = p
shown-IsPrivate (some who) e a p = act-IsPrivate e a p

step-IsPrivate : (e : ChatEvent) (a : Assistant) → IsPrivate a → IsPrivate (chat_step e a)
unfolding chat_step with_chat answer_message is_reader
step-IsPrivate (session_changed session) a p = session-IsPrivate session a p
step-IsPrivate (answered r) a p = end-IsPrivate a a.chat.under_way (answer_message r) refl p.waits p
step-IsPrivate (failed message) a p = end-IsPrivate a a.chat.under_way _ refl p.waits p
step-IsPrivate (typed text) a p = shown-IsPrivate a.account (typed text) a p
step-IsPrivate (sent_typed h) a p = shown-IsPrivate a.account (sent_typed h) a p
step-IsPrivate (sent_prompt h t) a p = shown-IsPrivate a.account (sent_prompt h t) a p
step-IsPrivate reset a p = shown-IsPrivate a.account reset a p
step-IsPrivate toggled a p = shown-IsPrivate a.account toggled a p
step-IsPrivate (source_toggled n) a p = shown-IsPrivate a.account (source_toggled n) a p

run-IsPrivate :
    (events : List ChatEvent) (a : Assistant) → IsPrivate a → IsPrivate (run_chat events a)
unfolding run_chat
run-IsPrivate [] a p = p
run-IsPrivate (e ∷ events) a p = run-IsPrivate events (chat_step e a) (step-IsPrivate e a p)

-- Over any history of sessions, searches, answers and failures, every search sends along at most
-- three messages, and each of them is a question that the same account asked in a search before: no
-- answer, which may carry real names, and nothing of another account ever goes back.
pub run_chat-private :
    (who : Option String) (events : List ChatEvent)
    → IsPrivateLog [] (run_chat events (record { account = who; chat = new_chat; sent = [] })).sent
unfolding IsPrivateLog
run_chat-private who events = (run-IsPrivate events _ (new-IsPrivate who [] tt)).log

-- The question of a search, in a chat in which no other is under way.
begun :
    (is_hiding : Bool) (prompt : Text) (who : String) (a : Assistant)
    → a.account ≡ some who
    → a.chat.is_loading ≡ false
    → is_empty (trim prompt) ≡ false
    → chat_step (sent_prompt is_hiding prompt) a ≡ begin_search is_hiding (trim prompt) a
unfolding chat_step act_if_shown act handle_send ask
begun is_hiding prompt who a e idle filled =
    ap (λ o. act_if_shown o (sent_prompt is_hiding prompt) a) e
    ∙ ap (λ b. if b || a.chat.is_loading then a else begin_search is_hiding (trim prompt) a) filled
    ∙ ap (λ b. if b then a else begin_search is_hiding (trim prompt) a) idle

-- The chat is reset, and the answer to the search under way comes.
put_back :
    (who : String) (r : SearchResponse) (b : Assistant) (updated : List ChatMessage)
    → b.account ≡ some who
    → b.chat.under_way ≡ some updated
    → ((run_chat (reset ∷ []) b).chat.messages ≡ [])
      × ((run_chat (reset ∷ answered r ∷ []) b).chat.messages ≡ updated ++ answer_message r ∷ [])
unfolding run_chat chat_step act_if_shown act with_chat reset_chat end_search
put_back who r b updated e h = (
  ap (λ o. (act_if_shown o reset b).chat.messages) e,
  ap
        (λ o.
          (end_search (act_if_shown o reset b).chat.under_way (answer_message r)
            (act_if_shown o reset b).chat).messages)
        e
      ∙ ap (λ o. (end_search o (answer_message r) (reset_chat b.chat)).messages) h,
)

-- A reader who is signed in asks, while no search is under way, and starts a new chat before the answer
-- is there: the chat is empty, but with the answer all of it comes back, the messages from before, the
-- question and the answer behind it.
pub run_chat-reset :
    (who : String) (a : Assistant) (is_hiding : Bool) (prompt : Text) (r : SearchResponse)
    → a.account ≡ some who
    → a.chat.is_loading ≡ false
    → is_empty (trim prompt) ≡ false
    → ((run_chat (sent_prompt is_hiding prompt ∷ reset ∷ []) a).chat.messages ≡ [])
      × ((run_chat (sent_prompt is_hiding prompt ∷ reset ∷ answered r ∷ []) a).chat.messages
          ≡ a.chat.messages ++ plain user (trim prompt) ∷ answer_message r ∷ [])
unfolding run_chat begin_search with_question
run_chat-reset who a is_hiding prompt r e idle filled =
    let b = begin_search is_hiding (trim prompt) a in
    let asked = begun is_hiding prompt who a e idle filled in
    let back = put_back who r b (a.chat.messages ++ plain user (trim prompt) ∷ []) e refl in
    (
      ap (λ (u : Assistant). (run_chat (reset ∷ []) u).chat.messages) asked ∙ back.0,
      ap (λ (u : Assistant). (run_chat (reset ∷ answered r ∷ []) u).chat.messages) asked
          ∙ back.1
          ∙ append_assoc a.chat.messages (plain user (trim prompt) ∷ []) (answer_message r ∷ []),
    )
