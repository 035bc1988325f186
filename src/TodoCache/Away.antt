-- ===== src/TodoCache/Away.antt =====
-- lib/queries/todo.ts: a row that was removed stays away.
use aimail.Base.{
  Bool, true, false, Option, none, some, List, [], ◌∷◌, String, filter, All, all, ◌≡◌, refl, subst,
  arith, Bool-cases, inl, inr, if_rule,
}
use aimail.Demo.Todo.{Todo}
use aimail.TodoCache.{
  TodoCache, nothing_cached, Removal, dismiss, not_waiting, remind_later, remove, CacheEvent,
  fetch_started, fetched, removed, settled, cache_step, run_cache, on_mutate, on_settled,
  nth_removal, settle, removed_rows, without_email, without_waiting, without_row, without_reply,
  drop_email,
}
use aimail.TodoCache.Counts.{IsCounted}
use aimail.TodoCache.Removals.{IsGone, IsGoneEmail, remove_lem, handled-IsGone, handled-IsGoneEmail}
use aimail.TodoCache.Histories.{
  IsCountedCached, IsCountedEvent, IsCountedCache, run-IsCounted, mutate-IsCounted,
}

-- The row of a removal is not shown, and no fetch is under way that could bring it back.
record IsAway (r : Removal) (c : TodoCache) : Type 0 where
  is_gone : (todo : Todo) → c.cached ≡ some todo → IsGone r todo
  is_idle : c.is_fetching ≡ false

-- Short of a fetch that starts anew and of a failure.
abbrev pub is_calm : CacheEvent → Bool
is_calm fetch_started = false
is_calm (settled n is_ok) = is_ok
is_calm _ = true

filter-keeps {ℓ κ} :
    {A : Type ℓ} (P : A → Type κ) (p : A → Bool) (xs : List A) → All P xs → All P (filter p xs)
filter-keeps P p [] h = tt
filter-keeps P p (x ∷ xs) h = elim (Bool-cases (p x)) [
  | inl e ↦ rw e (h.0, filter-keeps P p xs h.1)
  | inr e ↦ rw e (filter-keeps P p xs h.1)
]

email-IsGoneEmail :
    (id other : String) (todo : Todo)
    → IsGoneEmail id todo
    → IsGoneEmail id (without_email todo other)
unfolding IsGoneEmail without_email drop_email without_row
email-IsGoneEmail id other todo g = (
  filter-keeps _ _ todo.needs_action_list.emails g.0,
  filter-keeps _ _ todo.needs_review_list.emails g.1,
  filter-keeps _ _ todo.unsent_drafts_list.emails g.2,
)

waiting-IsGoneEmail :
    (id other : String) (todo : Todo)
    → IsGoneEmail id todo
    → IsGoneEmail id (without_waiting todo other)
unfolding IsGoneEmail without_waiting
waiting-IsGoneEmail id other todo g = g

remove-IsGoneEmail :
    (r : Removal) (id : String) (todo : Todo) → IsGoneEmail id todo → IsGoneEmail id (remove r todo)
unfolding remove
remove-IsGoneEmail (dismiss other) id todo g =
    handled-IsGoneEmail todo _ id (email-IsGoneEmail id other todo g)
remove-IsGoneEmail (not_waiting other) id todo g =
    handled-IsGoneEmail todo _ id (waiting-IsGoneEmail id other todo g)
remove-IsGoneEmail (remind_later other) id todo g = email-IsGoneEmail id other todo g

email-IsGone :
    (id other : String) (todo : Todo)
    → IsGone (not_waiting id) todo
    → IsGone (not_waiting id) (without_email todo other)
unfolding IsGone without_email
email-IsGone id other todo g = g

reply-IsGone :
    (id other : String) (todo : Todo)
    → IsGone (not_waiting id) todo
    → IsGone (not_waiting id) (without_waiting todo other)
unfolding IsGone without_waiting without_reply
reply-IsGone id other todo g = filter-keeps _ _ todo.waiting g

remove-IsGoneReply :
    (r : Removal) (id : String) (todo : Todo)
    → IsGone (not_waiting id) todo
    → IsGone (not_waiting id) (remove r todo)
unfolding remove
remove-IsGoneReply (dismiss other) id todo g =
    handled-IsGone todo _ id (email-IsGone id other todo g)
remove-IsGoneReply (not_waiting other) id todo g =
    handled-IsGone todo _ id (reply-IsGone id other todo g)
remove-IsGoneReply (remind_later other) id todo g = email-IsGone id other todo g

remove-IsGone : (r other : Removal) (todo : Todo) → IsGone r todo → IsGone r (remove other todo)
unfolding IsGone
remove-IsGone (dismiss id) other todo g = remove-IsGoneEmail other id todo g
remove-IsGone (remind_later id) other todo g = remove-IsGoneEmail other id todo g
remove-IsGone (not_waiting id) other todo g = remove-IsGoneReply other id todo g

some_eq : {a b : Todo} → some a ≡ some b → a ≡ b
some_eq h = cc

rows-IsGone :
    (r other : Removal) (o : Option Todo)
    → ((todo : Todo) → o ≡ some todo → IsGone r todo)
    → (after : Todo) → removed_rows other o ≡ some after
    → IsGone r after
unfolding removed_rows
rows-IsGone r other none g after e = absurd (ground arith)
rows-IsGone r other (some todo) g after e =
    subst (IsGone r) (some_eq e) (remove-IsGone r other todo (g todo refl))

settle-IsAway :
    (r : Removal) (o : Option (Removal × Option Todo)) (c : TodoCache)
    → IsAway r c
    → IsAway r (settle true o c)
unfolding settle on_settled
settle-IsAway r none c w = w
settle-IsAway r (some e) c w = record { is_gone = w.is_gone; is_idle = w.is_idle }

step-IsAway :
    (r : Removal) (e : CacheEvent) (c : TodoCache)
    → is_calm e ≡ true
    → IsAway r c
    → IsAway r (cache_step e c)
unfolding cache_step on_mutate
step-IsAway r fetch_started c calm w = absurd (ground arith)
step-IsAway r (fetched todo) c calm w =
    if_rule (IsAway r) c.is_fetching (λ h. absurd (let i = w.is_idle in ground arith)) (λ _. w)
step-IsAway r (removed other) c calm w = record {
  is_gone = rows-IsGone r other c.cached w.is_gone;
  is_idle = refl;
}
step-IsAway r (settled n true) c calm w = settle-IsAway r (nth_removal n c.under_way) c w
step-IsAway r (settled n false) c calm w = absurd (ground arith)

run-IsAway :
    (r : Removal) (events : List CacheEvent) (c : TodoCache)
    → all is_calm events ≡ true
    → IsAway r c
    → IsAway r (run_cache events c)
unfolding run_cache
run-IsAway r [] c calm w = w
run-IsAway r (e ∷ events) c calm w =
    run-IsAway r events (cache_step e c) (ground arith) (step-IsAway r e c (ground arith) w)

removed_rows-IsGone :
    (r : Removal) (o : Option Todo)
    → IsCountedCached o
    → (after : Todo) → removed_rows r o ≡ some after
    → IsGone r after
unfolding removed_rows
removed_rows-IsGone r none k after e = absurd (ground arith)
removed_rows-IsGone r (some todo) k after e = subst (IsGone r) (some_eq e) (remove_lem r todo k).1

mutate-IsAway : (r : Removal) (c : TodoCache) → IsCountedCache c → IsAway r (on_mutate r c)
unfolding on_mutate
mutate-IsAway r c h = record { is_gone = removed_rows-IsGone r c.cached h.shown; is_idle = refl }

-- While the service's answers count their rows, after any history of answers, removals, successes and
-- failures the cached To-do counts its own; and from a removal on, until a fetch that starts after it
-- or a failure, no row of it is shown, not even by an answer to a fetch that was under way before.
pub run_cache-removes :
    (before : List CacheEvent) (r : Removal) (during : List CacheEvent) (todo : Todo)
    → All IsCountedEvent before
    → All IsCountedEvent during
    → all is_calm during ≡ true
    → (run_cache during (on_mutate r (run_cache before nothing_cached))).cached ≡ some todo
    → IsCounted todo × IsGone r todo
run_cache-removes before r during todo wb wd calm e =
    let c = run-IsCounted before nothing_cached wb (record { shown = tt; befores = tt }) in
    let k =
      run-IsCounted during (on_mutate r (run_cache before nothing_cached)) wd
        (mutate-IsCounted r (run_cache before nothing_cached) c) in
    (
      subst IsCountedCached e k.shown,
      (run-IsAway r during _ calm (mutate-IsAway r _ c)).is_gone todo e,
    )
