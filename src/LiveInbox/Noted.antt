-- ===== src/LiveInbox/Noted.antt =====
-- lib/queries/events.ts: what is noted stays noted until the timer fires.
use aimail.Base.{
  true, List, [], ◌∷◌, ◌++◌, String, string_eq, includes, Option, none, some, ◌≡◌, refl, ◌∙◌, arith,
  if_rule, eq_refl,
}
use aimail.LiveInbox.{
  Stream, opened, errored, mailbox, poll_tick, EventKind, MailboxEvent, stream_step, on_open,
  on_error, on_mailbox, refetch_draft, note, note_email, note_everything, with_id, trigger, ask,
  is_draft, is_whole_inbox,
}
use aimail.LiveInbox.Covers.{is_noted}

includes-append :
    (ids : List String) (id other : String)
    → includes ids id ≡ true
    → includes (ids ++ other ∷ []) id ≡ true
includes-append [] id other h = absurd (ground arith)
includes-append (x ∷ ids) id other h = ground (arith, includes-append ids id other)

includes_last : (ids : List String) (id : String) → includes (ids ++ id ∷ []) id ≡ true
includes_last [] id = ground (arith, eq_refl id)
includes_last (x ∷ ids) id = ground (arith, includes_last ids id)

with_id-keeps :
    (id other : String) (ids : List String)
    → includes ids id ≡ true
    → includes (with_id other ids) id ≡ true
unfolding with_id
with_id-keeps id other ids h = ground (arith, includes-append ids id other h)

with_id-has : (id : String) (ids : List String) → includes (with_id id ids) id ≡ true
unfolding with_id
with_id-has id ids = ground (arith, includes_last ids id)

note-noted :
    (kind : EventKind) (named : Option String) (id : String) (s : Stream)
    → is_noted id s ≡ true
    → is_noted id (note kind named s) ≡ true
unfolding note note_everything note_email trigger
note-noted kind none id s h = refl
note-noted kind (some other) id s h =
    if_rule (λ (t : Stream). is_noted id t ≡ true) (is_whole_inbox kind) (λ _. refl)
      (λ _. ground (arith, with_id-keeps id other s.changed_ids))

pub note-names :
    (kind : EventKind) (id : String) (s : Stream) → is_noted id (note kind (some id) s) ≡ true
unfolding note note_everything note_email trigger
note-names kind id s =
    if_rule (λ (t : Stream). is_noted id t ≡ true) (is_whole_inbox kind) (λ _. refl)
      (λ _. ground (arith, with_id-has id s.changed_ids))

draft-noted :
    (kind : EventKind) (named : Option String) (id : String) (s : Stream)
    → is_noted id (refetch_draft kind named s) ≡ is_noted id s
unfolding refetch_draft ask
draft-noted kind none id s = refl
draft-noted kind (some other) id s =
    if_rule (λ (t : Stream). is_noted id t ≡ is_noted id s) (is_draft kind) (λ _. refl) (λ _. refl)

pub mailbox-noted :
    (e : Option MailboxEvent) (id : String) (s : Stream)
    → is_noted id s ≡ true
    → is_noted id (on_mailbox e s) ≡ true
unfolding on_mailbox
mailbox-noted none id s h = h
mailbox-noted (some e) id s h =
    note-noted e.kind e.message_id id _ (draft-noted e.kind e.message_id id s ∙ h)

module _ (id : String) (s : Stream) where
  pub on_open-noted : is_noted id s ≡ true → is_noted id (stream_step opened s) ≡ true
  unfolding stream_step on_open note_everything trigger
  on_open-noted h = if_rule (λ (t : Stream). is_noted id t ≡ true) s.is_closed (λ _. h) (λ _. refl)

  pub on_error-noted : is_noted id s ≡ true → is_noted id (stream_step errored s) ≡ true
  unfolding stream_step on_error
  on_error-noted h = if_rule (λ (t : Stream). is_noted id t ≡ true) s.is_closed (λ _. h) (λ _. h)

  pub message-noted :
      (e : Option MailboxEvent)
      → is_noted id s ≡ true
      → is_noted id (stream_step (mailbox e) s) ≡ true
  unfolding stream_step
  message-noted e h =
      if_rule (λ (t : Stream). is_noted id t ≡ true) s.is_closed (λ _. h)
        (λ _. mailbox-noted e id s h)

  pub poll-noted : is_noted id s ≡ true → is_noted id (stream_step poll_tick s) ≡ true
  unfolding stream_step ask
  poll-noted h = if_rule (λ (t : Stream). is_noted id t ≡ true) s.has_poll (λ _. h) (λ _. h)
