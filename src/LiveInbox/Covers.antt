-- ===== src/LiveInbox/Covers.antt =====
-- lib/queries/events.ts: what an event names is fetched again once the burst is over.
use aimail.Base.{
  Bool, true, false, ◌||◌, List, [], ◌∷◌, ◌++◌, append_assoc, append-nil, String, string_eq,
  includes, any, Option, none, some, ◌≡◌, refl, sym, ap, ◌∙◌, arith, if_rule,
}
use aimail.LiveInbox.{
  StreamEvent, Stream, Refetch, email, changed, everything, opened, errored, mailbox, poll_tick,
  flush_tick, closed, EventKind, MailboxEvent, stream_step, run_stream, on_open, on_error,
  on_mailbox, refetch_draft, note, note_email, note_everything, trigger, flush, close, ask,
  is_draft, is_whole_inbox,
}

-- A refetch of the list that shows the email anew.
abbrev pub covers : String → Refetch → Bool
covers id (email other) = false
covers id (changed ids) = includes ids id
covers id everything = true

abbrev pub is_noted : String → Stream → Bool
is_noted id s = s.is_everything || includes s.changed_ids id

-- The stream has asked for more than `asked` since, and that covers the email.
pub record Covered (id : String) (asked : List Refetch) (s : Stream) : Type 0 where
  pub since : List Refetch
  pub is_since : s.asked ≡ asked ++ since
  pub covered : any (covers id) since ≡ true

any-append :
    (id : String) (rs ts : List Refetch)
    → any (covers id) rs ≡ true
    → any (covers id) (rs ++ ts) ≡ true
any-append id [] ts h = absurd (ground arith)
any-append id (r ∷ rs) ts h = ground (arith, any-append id rs ts)

pub any_last :
    (id : String) (rs : List Refetch) (r : Refetch)
    → covers id r ≡ true
    → any (covers id) (rs ++ r ∷ []) ≡ true
any_last id [] r h = ground arith
any_last id (q ∷ rs) r h = ground (arith, any_last id rs r h)

-- Every event only adds to what is asked.
pub record Grows (s t : Stream) : Type 0 where
  pub added : List Refetch
  pub is_added : t.asked ≡ s.asked ++ added

Grows-refl : (s t : Stream) → t.asked ≡ s.asked → Grows s t
Grows-refl s t e = record { added = []; is_added = e ∙ sym (append-nil _) }

Grows-one : (s t : Stream) (r : Refetch) → t.asked ≡ s.asked ++ r ∷ [] → Grows s t
Grows-one s t r e = record { added = r ∷ []; is_added = e }

note-asked : (kind : EventKind) (id : Option String) (s : Stream) → (note kind id s).asked ≡ s.asked
unfolding note note_email note_everything trigger
note-asked kind none s = refl
note-asked kind (some id) s =
    if_rule (λ (t : Stream). t.asked ≡ s.asked) (is_whole_inbox kind) (λ _. refl) (λ _. refl)

draft-Grows :
    (kind : EventKind) (id : Option String) (s : Stream) → Grows s (refetch_draft kind id s)
unfolding refetch_draft ask
draft-Grows kind none s = Grows-refl s s refl
draft-Grows kind (some id) s =
    if_rule (Grows s) (is_draft kind) (λ _. Grows-one s _ _ refl) (λ _. Grows-refl s _ refl)

mailbox-Grows : (e : Option MailboxEvent) (s : Stream) → Grows s (on_mailbox e s)
unfolding on_mailbox
mailbox-Grows none s = Grows-refl s s refl
mailbox-Grows (some e) s =
    let g = draft-Grows e.kind e.message_id s in
    record { added = g.added; is_added = note-asked e.kind e.message_id _ ∙ g.is_added }

pub step-Grows : (e : StreamEvent) (s : Stream) → Grows s (stream_step e s)
unfolding stream_step on_open on_error note_everything trigger flush ask close
step-Grows opened s =
    if_rule (Grows s) s.is_closed (λ _. Grows-refl s s refl) (λ _. Grows-refl s _ refl)
step-Grows errored s =
    if_rule (Grows s) s.is_closed (λ _. Grows-refl s s refl) (λ _. Grows-refl s _ refl)
step-Grows (mailbox e) s =
    if_rule (Grows s) s.is_closed (λ _. Grows-refl s s refl) (λ _. mailbox-Grows e s)
step-Grows poll_tick s =
    if_rule (Grows s) s.has_poll (λ _. Grows-one s _ _ refl) (λ _. Grows-refl s s refl)
step-Grows flush_tick s =
    if_rule (Grows s) s.has_timer (λ _. Grows-one s _ _ refl) (λ _. Grows-refl s s refl)
step-Grows closed s =
    if_rule (Grows s) s.is_closed (λ _. Grows-refl s s refl) (λ _. Grows-refl s _ refl)

pub Covered-Grows :
    (id : String) (asked : List Refetch) (s t : Stream)
    → Covered id asked s
    → Grows s t
    → Covered id asked t
Covered-Grows id asked s t c g = record {
  since = c.since ++ g.added;
  is_since = g.is_added ∙ ap (λ l. l ++ g.added) c.is_since ∙ append_assoc asked c.since g.added;
  covered = any-append id c.since g.added c.covered;
}

pub run-Covered :
    (id : String) (asked : List Refetch) (events : List StreamEvent) (s : Stream)
    → Covered id asked s
    → Covered id asked (run_stream events s)
unfolding run_stream
run-Covered id asked [] s c = c
run-Covered id asked (e ∷ events) s c =
    run-Covered id asked events (stream_step e s) (Covered-Grows id asked s _ c (step-Grows e s))
