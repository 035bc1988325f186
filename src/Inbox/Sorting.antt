-- ===== src/Inbox/Sorting.antt =====
-- lib/inboxFilter.ts: the order of the inbox.
use aimail.Base.{
  ℕ, Bool, true, List, [], ◌∷◌, some, filter, leb, ◌≤◌, if◌then◌else◌, ◌≡◌, refl, ap, ◌∙◌, arith,
  All, Bool-cases, inl, inr,
}
use aimail.Email.{Priority, critical, high, medium, low}
use aimail.Inbox.{
  Conversation, rank, same_priority, insert_by_rank, by_rank, sort_conversations, urgent,
  filter_by_priority,
}

of_priority : Priority → Conversation → Bool
of_priority p c = same_priority c.email.priority p

same_priority-rank : (a p : Priority) → same_priority a p ≡ true → rank a ≡ rank p
unfolding same_priority rank
same_priority-rank critical critical h = refl
same_priority-rank critical high h = cc
same_priority-rank critical medium h = cc
same_priority-rank critical low h = cc
same_priority-rank high critical h = cc
same_priority-rank high high h = refl
same_priority-rank high medium h = cc
same_priority-rank high low h = cc
same_priority-rank medium critical h = cc
same_priority-rank medium high h = cc
same_priority-rank medium medium h = refl
same_priority-rank medium low h = cc
same_priority-rank low critical h = cc
same_priority-rank low high h = cc
same_priority-rank low medium h = cc
same_priority-rank low low h = refl

filter-insert_by_rank :
    (p : Priority) (c : Conversation) (rest : List Conversation)
    → filter (of_priority p) (insert_by_rank c rest)
      ≡ (if of_priority p c then c ∷ filter (of_priority p) rest else filter (of_priority p) rest)
unfolding insert_by_rank of_priority
filter-insert_by_rank p c [] = refl
filter-insert_by_rank p c (d ∷ rest) = ground (
  arith,
  same_priority-rank c.email.priority p,
  same_priority-rank d.email.priority p,
  filter-insert_by_rank p c rest,
)

filter-by_rank :
    (p : Priority) (rows : List Conversation)
    → filter (of_priority p) (by_rank rows) ≡ filter (of_priority p) rows
unfolding by_rank
filter-by_rank p [] = refl
filter-by_rank p (c ∷ rest) =
    filter-insert_by_rank p c (by_rank rest)
    ∙ ap (λ r. if of_priority p c then c ∷ r else r) (filter-by_rank p rest)

-- Whether a priority is no more urgent than a rank.
abbrev pub FromRank : ℕ → List Conversation → Type 0
FromRank n rows = All (λ (d : Conversation). n ≤ rank d.email.priority) rows

-- The most urgent first.
unfoldable pub IsByRank : List Conversation → Type 0
IsByRank [] = Unit
IsByRank (c ∷ rest) = FromRank (rank c.email.priority) rest × IsByRank rest

FromRank-insert_by_rank :
    (n : ℕ) (c : Conversation) (rest : List Conversation)
    → n ≤ rank c.email.priority
    → FromRank n rest
    → FromRank n (insert_by_rank c rest)
unfolding insert_by_rank
FromRank-insert_by_rank n c [] h all = (h, tt)
FromRank-insert_by_rank n c (d ∷ rest) h all =
    elim (Bool-cases (leb (rank c.email.priority) (rank d.email.priority))) [
      | inl e ↦ rw e (h, all)
      | inr e ↦ rw e (all.0, FromRank-insert_by_rank n c rest h all.1)
    ]

FromRank-weaken : (m n : ℕ) (rest : List Conversation) → m ≤ n → FromRank n rest → FromRank m rest
FromRank-weaken m n [] h all = tt
FromRank-weaken m n (d ∷ rest) h all = (omega (arith, h, all.0), FromRank-weaken m n rest h all.1)

insert_by_rank-IsByRank :
    (c : Conversation) (rest : List Conversation) → IsByRank rest → IsByRank (insert_by_rank c rest)
unfolding insert_by_rank IsByRank
insert_by_rank-IsByRank c [] sorted = (tt, tt)
insert_by_rank-IsByRank c (d ∷ rest) sorted =
    elim (Bool-cases (leb (rank c.email.priority) (rank d.email.priority))) [
      | inl e ↦
          let first : rank c.email.priority ≤ rank d.email.priority = ground (arith, e) in
          rw e ((first, FromRank-weaken _ _ rest first sorted.0), sorted)
      | inr e ↦
          let later : rank d.email.priority ≤ rank c.email.priority = ground (arith, e) in
          rw e (
            FromRank-insert_by_rank (rank d.email.priority) c rest later sorted.0,
            insert_by_rank-IsByRank c rest sorted.1,
          )
    ]

by_rank-IsByRank : (rows : List Conversation) → IsByRank (by_rank rows)
unfolding by_rank IsByRank
by_rank-IsByRank [] = tt
by_rank-IsByRank (c ∷ rest) = insert_by_rank-IsByRank c (by_rank rest) (by_rank-IsByRank rest)

-- Sorted by urgency, the rows stand by rank, the most urgent first; and for each priority the
-- filter gives the same rows in the same order as before.
sort_conversations_lem :
    (rows : List Conversation)
    → IsByRank (sort_conversations rows urgent)
      × ((p : Priority)
          → filter_by_priority (sort_conversations rows urgent) (some p)
            ≡ filter_by_priority rows (some p))
unfolding sort_conversations filter_by_priority of_priority
sort_conversations_lem rows = (by_rank-IsByRank rows, λ p. filter-by_rank p rows)
