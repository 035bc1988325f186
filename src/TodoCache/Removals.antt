-- ===== src/TodoCache/Removals.antt =====
-- lib/queries/todo.ts: what each removal does to the cached To-do.
use aimail.Base.{
  ◌+◌, Bool, true, false, not, ◌&&◌, List, [], ◌∷◌, String, ◌===◌, filter, All, ltb, ◌≡◌, refl,
  arith, Bool-cases, inl, inr, if_rule, if◌then◌else◌,
}
use aimail.Demo.Todo.{Todo, WaitingReply}
use aimail.Email.{Email}
use aimail.TodoCache.{
  without_row, drop_email, without_email, without_reply, without_waiting, handled, Removal, dismiss,
  not_waiting, remind_later, remove,
}
use aimail.TodoCache.Counts.{
  IsCounted, rows, without_email-IsCounted, without_waiting-IsCounted, without_email-rows,
  without_waiting-rows,
}

-- None of the lists shows the email.
unfoldable pub IsGoneEmail : String → Todo → Type 0
IsGoneEmail id todo =
    All (λ (email : Email). (email.id === id) ≡ false) todo.needs_action_list.emails
    × All (λ (email : Email). (email.id === id) ≡ false) todo.needs_review_list.emails
    × All (λ (email : Email). (email.id === id) ≡ false) todo.unsent_drafts_list.emails

-- No row of the removal's is shown.
unfoldable pub IsGone : Removal → Todo → Type 0
IsGone (not_waiting id) todo =
    All (λ (reply : WaitingReply). (reply.id === id) ≡ false) todo.waiting
IsGone (dismiss id) todo = IsGoneEmail id todo
IsGone (remind_later id) todo = IsGoneEmail id todo

-- Later is not done.
unfoldable pub is_done : Removal → Bool
is_done (remind_later id) = false
is_done _ = true

filter-gone {ℓ} :
    {A : Type ℓ} (is_it : A → Bool) (xs : List A)
    → All (λ x. is_it x ≡ false) (filter (λ x. not (is_it x)) xs)
filter-gone is_it [] = tt
filter-gone is_it (x ∷ xs) = elim (Bool-cases (is_it x)) [
  | inl h ↦ rw h (filter-gone is_it xs)
  | inr h ↦ rw h (h, filter-gone is_it xs)
]

-- What holds of a To-do whatever its day's count is, holds of one that was handled.
module _ (todo after : Todo) where
  handled-IsCounted : IsCounted after → IsCounted (handled todo after)
  unfolding handled
  handled-IsCounted c =
      if_rule IsCounted (ltb after.count todo.count)
        (λ _. record {
          shown_action = c.shown_action;
          shown_review = c.shown_review;
          shown_drafts = c.shown_drafts;
          counted = c.counted;
        })
        (λ _. c)

  handled-count : (handled todo after).count ≡ after.count
  unfolding handled
  handled-count =
      if_rule (λ (t : Todo). t.count ≡ after.count) (ltb after.count todo.count) (λ _. refl)
        (λ _. refl)

  handled-rows : rows (handled todo after) ≡ rows after
  unfolding handled rows
  handled-rows =
      if_rule (λ (t : Todo). rows t ≡ rows after) (ltb after.count todo.count) (λ _. refl)
        (λ _. refl)

  handled-balance :
      after.count + rows todo ≡ todo.count + rows after
      → (handled todo after).count + rows todo ≡ todo.count + rows (handled todo after)
  handled-balance e = omega (arith, handled-count, handled-rows)

  pub handled-IsGoneEmail :
      (id : String) → IsGoneEmail id after → IsGoneEmail id (handled todo after)
  unfolding handled IsGoneEmail
  handled-IsGoneEmail id g =
      if_rule (λ t. IsGoneEmail id t) (ltb after.count todo.count) (λ _. g) (λ _. g)

  pub handled-IsGone :
      (id : String) → IsGone (not_waiting id) after → IsGone (not_waiting id) (handled todo after)
  unfolding handled IsGone
  handled-IsGone id g =
      if_rule (λ t. IsGone (not_waiting id) t) (ltb after.count todo.count) (λ _. g) (λ _. g)

  handled-done :
      after.done_today ≡ todo.done_today
      → after.count + rows todo ≡ todo.count + rows after
      → (handled todo after).done_today ≡ (
          if ltb (rows (handled todo after)) (rows todo)
          then todo.done_today + 1
          else todo.done_today)
  unfolding handled rows
  handled-done same e =
      if_rule
        (λ (t : Todo).
          t.done_today
          ≡ (if ltb (rows t) (rows todo) then todo.done_today + 1 else todo.done_today))
        (ltb after.count todo.count) (λ h. ground arith) (λ h. ground arith)

without_email-IsGoneEmail : (todo : Todo) (id : String) → IsGoneEmail id (without_email todo id)
unfolding IsGoneEmail without_email drop_email without_row
without_email-IsGoneEmail todo id = (
  filter-gone (λ (email : Email). email.id === id) todo.needs_action_list.emails,
  filter-gone (λ (email : Email). email.id === id) todo.needs_review_list.emails,
  filter-gone (λ (email : Email). email.id === id) todo.unsent_drafts_list.emails,
)

IsGone-reply : (todo : Todo) (id : String) → IsGone (not_waiting id) (without_waiting todo id)
unfolding IsGone without_waiting without_reply
IsGone-reply todo id = filter-gone (λ (reply : WaitingReply). reply.id === id) todo.waiting

same_email : (todo : Todo) (id : String) → (without_email todo id).done_today ≡ todo.done_today
unfolding without_email
same_email todo id = refl

same_waiting : (todo : Todo) (id : String) → (without_waiting todo id).done_today ≡ todo.done_today
unfolding without_waiting
same_waiting todo id = refl

-- When the count of the cached To-do is that of its rows, a removal leaves it so: the lists show no
-- row of that id any more, the count falls by as many as the rows that went, and what was done today
-- rises by one when a row went and it was not only put off.
pub remove_lem :
    (r : Removal) (todo : Todo)
    → IsCounted todo
    → let after = remove r todo in
      IsCounted after
      × IsGone r after
      × (after.count + rows todo ≡ todo.count + rows after)
      × (after.done_today ≡ (
          if is_done r && ltb (rows after) (rows todo)
          then todo.done_today + 1
          else todo.done_today))
unfolding remove IsGone is_done
remove_lem (dismiss id) todo c =
    let after = without_email todo id in
    (
      handled-IsCounted todo after (without_email-IsCounted todo id c),
      handled-IsGoneEmail todo after id (without_email-IsGoneEmail todo id),
      handled-balance todo after (without_email-rows todo id c),
      handled-done todo after (same_email todo id) (without_email-rows todo id c),
    )
remove_lem (not_waiting id) todo c =
    let after = without_waiting todo id in
    (
      handled-IsCounted todo after (without_waiting-IsCounted todo id c),
      handled-IsGone todo after id (IsGone-reply todo id),
      handled-balance todo after (without_waiting-rows todo id c),
      handled-done todo after (same_waiting todo id) (without_waiting-rows todo id c),
    )
remove_lem (remind_later id) todo c = (
  without_email-IsCounted todo id c,
  without_email-IsGoneEmail todo id,
  without_email-rows todo id c,
  same_email todo id,
)
