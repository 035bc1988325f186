-- ===== src/SearchChat/Tests.antt =====
-- components/InboxChatWidget.tsx: two searches, with a new chat between the second and its answer.
use aimail.Base.{
  is_empty, ◌++◌, trim, trim_start, trim_end, true, false, none, some, List, [], ◌∷◌, codes, ◌≡◌,
  refl, string_eq,
}
use aimail.SearchChat.{
  user, is_reader, Assistant, new_chat, plain, SearchResponse, last_three, history_for, request_for,
  with_question, ask, begin_search, handle_send, end_search, same_key, on_session, ChatEvent,
  session_changed, typed, sent_typed, sent_prompt, answered, reset, with_chat, act, act_if_shown,
  chat_step, run_chat, answer_message, restore_answer,
}
use aimail.SearchChat.Replace.{replace_all, replace_from, starts_with, expand}
use aimail.SearchChat.Private.{IsPrivateLog}
use aimail.SearchChat.Answers.{run_chat-private, run_chat-reset}

restored :
    restore_answer ((codes "[S]", codes "Ana") ∷ []) (codes "from [S] and [S]")
    ≡ codes "from Ana and Ana"
unfolding restore_answer replace_all replace_from starts_with expand
restored = refl

-- A name with a pattern of `replaceAll` in it.
restored_pattern : replace_all (codes "[S]") (codes "A$&") (codes "[S]!") ≡ codes "A[S]!"
unfolding replace_all replace_from starts_with expand
restored_pattern = refl

abbrev reply : SearchResponse
reply = record { answer = codes "Yes."; sources = []; sender_vault = []; has_restored_pii = false }

abbrev history : List ChatEvent
history =
    session_changed (some "a@b.c")
    ∷ typed (codes " Is it paid? ")
    ∷ sent_typed false
    ∷ answered reply
    ∷ sent_prompt true (codes "And when?")
    ∷ []

abbrev start : Assistant
start = record { account = none; chat = new_chat; sent = [] }

sent_along :
    (run_chat history start).sent
    ≡ (
      some "a@b.c",
      record {
        query = codes "Is it paid?";
        history = [];
        k_emails = 5;
        k_docs = 3;
        restore = true;
      },
    )
      ∷ (
        some "a@b.c",
        record {
          query = codes "And when?";
          history = plain user (codes "Is it paid?") ∷ [];
          k_emails = 5;
          k_docs = 3;
          restore = false;
        },
      )
      ∷ []
unfolding trim trim_start trim_end run_chat chat_step on_session same_key act_if_shown act with_chat
    handle_send ask begin_search with_question request_for history_for last_three is_reader
    end_search answer_message restore_answer
sent_along = refl

run_chat-private_example : IsPrivateLog [] (run_chat history start).sent
run_chat-private_example = run_chat-private none history

-- A chat with a question and its answer.
abbrev chatted : Assistant
chatted = record {
  account = some "a@b.c";
  chat = record new_chat {
    messages = plain user (codes "Is it paid?") ∷ answer_message reply ∷ [];
  };
  sent = [];
}

filled : is_empty (trim (codes " And when?")) ≡ false
unfolding trim trim_start trim_end
filled = refl

run_chat-reset_example :
    ((run_chat (sent_prompt true (codes " And when?") ∷ reset ∷ []) chatted).chat.messages ≡ [])
    × ((run_chat
          (sent_prompt true (codes " And when?") ∷ reset ∷ answered reply ∷ [])
          chatted).chat.messages
        ≡ chatted.chat.messages
          ++ plain user (trim (codes " And when?")) ∷ answer_message reply ∷ [])
run_chat-reset_example =
    run_chat-reset "a@b.c" chatted true (codes " And when?") reply refl refl filled
