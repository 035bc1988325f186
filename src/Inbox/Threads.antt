-- ===== src/Inbox/Threads.antt =====
-- lib/conversations.ts: a row of the inbox is the thread of its emails.
use aimail.Base.{
  ℕ, ◌+◌, Bool, true, false, ◌&&◌, Option, none, some, List, [], ◌∷◌, ◌++◌, String, string_eq, map,
  filter, length, all, ◌===◌, eq_iff, ◌≡◌, refl, ap, ◌∙◌, Bool-cases, inl, inr, arith, append_assoc,
  append-nil,
}
use aimail.Base.Maps.{get, get-put}
use aimail.Email.{Email}
use aimail.Inbox.{Conversation, thread_key, new_conversation, extended, conversation_with, grouped}

and_true : (b : Bool) → b && true ≡ b
and_true true = refl
and_true false = refl

and_assoc : (a b c : Bool) → (a && b) && c ≡ a && (b && c)
and_assoc true b c = refl
and_assoc false b c = refl

-- The emails of a thread, joined to what is known of it.
joins : Option Conversation → List Email → Option Conversation
joins known [] = known
joins known (email ∷ emails) = joins (some (conversation_with known email)) emails

in_thread_of : String → Email → Bool
in_thread_of key email = thread_key email === key

get-grouped :
    (key : String) (emails : List Email) (by_thread : List (String × Conversation))
    → get key (grouped by_thread emails)
      ≡ joins (get key by_thread) (filter (in_thread_of key) emails)
unfolding grouped joins in_thread_of
get-grouped key [] by_thread = refl
get-grouped key (email ∷ emails) by_thread =
    get-grouped key emails _
    ∙ ap (λ o. joins o (filter (in_thread_of key) emails))
        (get-put (thread_key email) key (conversation_with (get (thread_key email) by_thread) email)
          by_thread)
    ∙ elim (Bool-cases (thread_key email === key)) [
      | inl e ↦ rw e (
          ap
            (λ k.
              joins (some (conversation_with (get k by_thread) email))
                (filter (in_thread_of key) emails))
            ((eq_iff (thread_key email) key).0 e))
      | inr e ↦ rw e refl
    ]

-- The row of some emails of one thread, newest first.
unfoldable pub row_of_thread : List Email → Option Conversation
row_of_thread [] = none
row_of_thread (newest ∷ older) = some (record {
  email = newest;
  count = length older + 1;
  is_read = newest.is_read && all (λ email. email.is_read) older;
  message_ids = newest.id ∷ map (λ email. email.id) older;
})

-- A row with more emails of its thread.
abbrev with_older : Email → ℕ → Bool → List String → Conversation
with_older email count is_read ids = record {
  email = email;
  count = count;
  is_read = is_read;
  message_ids = ids;
}

-- What joining more emails adds to a row.
joins-some :
    (email : Email) (n : ℕ) (b : Bool) (ids : List String) (emails : List Email)
    → joins (some (with_older email n b ids)) emails
      ≡ some (
          with_older email
            (n + length emails)
            (b && all (λ m. m.is_read) emails)
            (ids ++ map (λ m. m.id) emails))
unfolding joins conversation_with extended
joins-some email n b ids [] = same
  where
    same : some (with_older email n b ids) ≡ some (with_older email (n + 0) (b && true) (ids ++ []))
    same = rw (append-nil ids, and_true b) (ap (λ k. some (with_older email k b ids)) (omega arith))
joins-some email n b ids (m ∷ emails) =
    joins-some email (n + 1) (b && m.is_read) (ids ++ m.id ∷ []) emails
    ∙ rw (append_assoc ids (m.id ∷ []) (map (λ e. e.id) emails), and_assoc b m.is_read _)
        (ap
          (λ k. some (
            with_older email k (b && (m.is_read && all (λ e. e.is_read) emails))
              (ids ++ m.id ∷ map (λ e. e.id) emails)))
          (omega arith))

joins-none : (emails : List Email) → joins none emails ≡ row_of_thread emails
unfolding joins row_of_thread conversation_with new_conversation
joins-none [] = refl
joins-none (email ∷ emails) =
    joins-some email 1 email.is_read (email.id ∷ []) emails
    ∙ ap
        (λ k. some (
          with_older email k (email.is_read && all (λ e. e.is_read) emails)
            (email.id ∷ map (λ e. e.id) emails)))
        (omega arith)

-- The row that the inbox keeps of a thread has its first email, the newest in a list that comes
-- newest first; counts all its emails; is read if every one of them is; and names them in order. A
-- thread without an email has no row.
pub get-grouped_lem :
    (key : String) (emails : List Email)
    → get key (grouped [] emails)
      ≡ row_of_thread (filter (λ email. thread_key email === key) emails)
unfolding in_thread_of get row_of_thread
get-grouped_lem key emails = get-grouped key emails [] ∙ joins-none _
