-- ===== src/SearchChat/Private.antt =====
-- components/InboxChatWidget.tsx: what a search sends along.
use aimail.Base.{
  ℕ, zero, suc, ◌-◌, ◌≤◌, Bool, true, ◌&&◌, Option, none, some, List, [], ◌∷◌, ◌++◌, map,
  append_assoc, append-nil, Text, text_eq, text_eq_refl, String, eq_refl, filter, length, drop, any,
  All, ◌≡◌, refl, sym, subst, ap, arith, Bool-cases, inl, inr,
}
use aimail.SearchChat.{
  ChatMessage, is_user, plain, SearchRequest, last_three, history_for, request_for, same_key,
}

abbrev pub Log : Type 0
Log = List (Option String × SearchRequest)

-- The text was a question of that account's.
unfoldable pub was_asked : Option String → Text → Log → Bool
was_asked who text log = any (λ e. same_key e.0 who && text_eq e.1.query text) log

-- A message that the reader of this account wrote was asked before.
unfoldable pub IsOwn : Option String → Log → ChatMessage → Type 0
IsOwn who log m = is_user m ≡ true → was_asked who m.content log ≡ true

-- A search sends along three messages at most, each a question that the same account asked before.
unfoldable pub IsPrivateRequest : Log → Option String → SearchRequest → Type 0
IsPrivateRequest earlier who r =
    (length r.history ≤ 3)
    × All (λ m. (is_user m ≡ true) × (was_asked who m.content earlier ≡ true)) r.history

unfoldable pub IsPrivateLog : Log → Log → Type 0
IsPrivateLog earlier [] = Unit
IsPrivateLog earlier (e ∷ log) =
    IsPrivateRequest earlier e.0 e.1 × IsPrivateLog (earlier ++ e ∷ []) log

pub any-append :
    (who : Option String) (text : Text) (log more : Log)
    → was_asked who text log ≡ true
    → was_asked who text (log ++ more) ≡ true
unfolding was_asked
any-append who text [] more h = absurd (ground arith)
any-append who text (e ∷ log) more h = ground (arith, any-append who text log more)

same_key_refl : (who : Option String) → same_key who who ≡ true
unfolding same_key
same_key_refl none = refl
same_key_refl (some a) = eq_refl a

pub asked_last :
    (who : Option String) (r : SearchRequest) (log : Log)
    → was_asked who r.query (log ++ (who, r) ∷ []) ≡ true
unfolding was_asked
asked_last who r [] = ground (arith, same_key_refl who, text_eq_refl r.query)
asked_last who r (e ∷ log) = ground (arith, asked_last who r log)

pub log_snoc :
    (earlier log : Log) (who : Option String) (r : SearchRequest)
    → IsPrivateLog earlier log
    → IsPrivateRequest (earlier ++ log) who r
    → IsPrivateLog earlier (log ++ (who, r) ∷ [])
unfolding IsPrivateLog
log_snoc earlier [] who r h k = (subst (λ l. IsPrivateRequest l who r) (append-nil earlier) k, tt)
log_snoc earlier (e ∷ log) who r h k = (
  h.0,
  log_snoc (earlier ++ e ∷ []) log who r h.1
      (subst (λ l. IsPrivateRequest l who r) (sym (append_assoc earlier (e ∷ []) log)) k),
)

length-drop {ℓ} : {A : Type ℓ} (n : ℕ) (xs : List A) → length (drop n xs) ≡ length xs - n
length-drop zero xs = omega arith
length-drop (suc n) [] = omega arith
length-drop (suc n) (x ∷ xs) = omega (arith, length-drop n xs)

All-drop {ℓ κ} : {A : Type ℓ} (P : A → Type κ) (n : ℕ) (xs : List A) → All P xs → All P (drop n xs)
All-drop P zero xs h = h
All-drop P (suc n) [] h = tt
All-drop P (suc n) (x ∷ xs) h = All-drop P n xs h.1

length-map {ℓ κ} :
    {A : Type ℓ} {B : Type κ} (f : A → B) (xs : List A) → length (map f xs) ≡ length xs
length-map f [] = refl
length-map f (x ∷ xs) = ap suc (length-map f xs)

module _ (who : Option String) (log : Log) where
  abbrev IsAsked : ChatMessage → Type 0
  IsAsked m = (is_user m ≡ true) × (was_asked who m.content log ≡ true)

  IsAsked-users : (ms : List ChatMessage) → All (IsOwn who log) ms → All IsAsked (filter is_user ms)
  unfolding IsOwn
  IsAsked-users [] h = tt
  IsAsked-users (m ∷ ms) h = elim (Bool-cases (is_user m)) [
    | inl e ↦ rw e ((e, h.0 e), IsAsked-users ms h.1)
    | inr e ↦ rw e (IsAsked-users ms h.1)
  ]

  IsAsked-plain :
      (ms : List ChatMessage) → All IsAsked ms → All IsAsked (map (λ m. plain m.role m.content) ms)
  IsAsked-plain [] h = tt
  IsAsked-plain (m ∷ ms) h = (h.0, IsAsked-plain ms h.1)

  pub request-IsPrivate :
      (is_hiding : Bool) (text : Text) (ms : List ChatMessage)
      → All (IsOwn who log) ms
      → IsPrivateRequest log who (request_for is_hiding text ms)
  unfolding IsPrivateRequest request_for history_for last_three
  request-IsPrivate is_hiding text ms h =
      let users = filter is_user ms in
      let few = drop (length users - 3) users in
      (
        omega (
          arith,
          length-map (λ (m : ChatMessage). plain m.role m.content) few,
          length-drop (length users - 3) users,
        ),
        IsAsked-plain few (All-drop IsAsked (length users - 3) users (IsAsked-users ms h)),
      )
