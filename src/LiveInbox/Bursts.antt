-- ===== src/LiveInbox/Bursts.antt =====
-- lib/queries/events.ts: an email that an event names, from the event to the end of its burst.
use aimail.Base.{
  Bool, true, false, List, [], ◌∷◌, ◌++◌, append_assoc, String, string_eq, all, none, some, ◌⊎◌,
  inl, inr, ◌≡◌, refl, ap, ◌∙◌, arith, if_rule, if◌then◌else◌,
}
use aimail.LiveInbox.{
  burst, opened_stream, StreamEvent, Stream, Refetch, opened, errored, mailbox, poll_tick,
  flush_tick, closed, MailboxEvent, stream_step, run_stream, on_open, on_error, on_mailbox,
  refetch_draft, note, note_email, note_everything, trigger, flush, ask,
}
use aimail.LiveInbox.Timers.{IsTimed, step-IsTimed, run_stream-IsTimed, has_any_of-includes}
use aimail.LiveInbox.Covers.{covers, is_noted, Covered, Grows, step-Grows, any_last, Covered-Grows}
use aimail.LiveInbox.Noted.{note-names, on_open-noted, on_error-noted, message-noted, poll-noted}

-- An event of an open stream; only leaving the page closes it.
abbrev pub stays_open : StreamEvent → Bool
stays_open closed = false
stays_open _ = true

-- The email is noted, and only more was asked since.
record Held (id : String) (asked : List Refetch) (s : Stream) : Type 0 where
  since : List Refetch
  is_since : s.asked ≡ asked ++ since
  noted : is_noted id s ≡ true

Held-Grows :
    (id : String) (asked : List Refetch) (s t : Stream)
    → Held id asked s
    → Grows s t
    → is_noted id t ≡ true
    → Held id asked t
Held-Grows id asked s t h g noted = record {
  since = h.since ++ g.added;
  is_since = g.is_added ∙ ap (λ l. l ++ g.added) h.is_since ∙ append_assoc asked h.since g.added;
  noted = noted;
}

flush_covers : (id : String) (s : Stream) → is_noted id s ≡ true → covers id (burst s) ≡ true
flush_covers id s h = ground arith

flush-Covered :
    (id : String) (asked : List Refetch) (s : Stream) → Held id asked s → Covered id asked (flush s)
unfolding flush ask
flush-Covered id asked s h = record {
  since = h.since ++ burst s ∷ [];
  is_since = ap (λ l. l ++ burst s ∷ []) h.is_since ∙ append_assoc asked h.since (burst s ∷ []);
  covered = any_last id h.since _ (flush_covers id s h.noted);
}

Awaited : String → List Refetch → Stream → Type 0
Awaited id asked s = Held id asked s ⊎ Covered id asked s

module _ (id : String) (asked : List Refetch) (s : Stream) where
  kept :
      (t : Stream)
      → Grows s t
      → (is_noted id s ≡ true → is_noted id t ≡ true)
      → Awaited id asked s
      → Awaited id asked t
  unfolding Awaited
  kept t g n (inl h) = inl (Held-Grows id asked s t h g (n h.noted))
  kept t g n (inr c) = inr (Covered-Grows id asked s t c g)

  flush-Awaited : Awaited id asked s → Awaited id asked (stream_step flush_tick s)
  unfolding Awaited stream_step
  flush-Awaited (inr c) = inr (Covered-Grows id asked s _ c (step-Grows flush_tick s))
  flush-Awaited (inl h) =
      if_rule (λ t. Held id asked t ⊎ Covered id asked t) s.has_timer
        (λ _. inr (flush-Covered id asked s h)) (λ _. inl h)

  step-Awaited :
      (e : StreamEvent)
      → stays_open e ≡ true
      → Awaited id asked s
      → Awaited id asked (stream_step e s)
  step-Awaited opened o w = kept _ (step-Grows opened s) (on_open-noted id s) w
  step-Awaited errored o w = kept _ (step-Grows errored s) (on_error-noted id s) w
  step-Awaited (mailbox e) o w = kept _ (step-Grows (mailbox e) s) (message-noted id s e) w
  step-Awaited poll_tick o w = kept _ (step-Grows poll_tick s) (poll-noted id s) w
  step-Awaited flush_tick o w = flush-Awaited w
  step-Awaited closed o w = absurd (ground arith)

step-open :
    (e : StreamEvent) (s : Stream)
    → stays_open e ≡ true
    → s.is_closed ≡ false
    → (stream_step e s).is_closed ≡ false
unfolding stream_step on_open on_error note_everything note_email trigger flush ask on_mailbox note
    refetch_draft
step-open opened s o c = ground arith
step-open errored s o c = ground arith
step-open (mailbox none) s o c = ground arith
step-open (mailbox (some e)) s o c = ground arith
step-open poll_tick s o c = ground arith
step-open flush_tick s o c = ground arith
step-open closed s o c = absurd (ground arith)

run-open :
    (events : List StreamEvent) (s : Stream)
    → all stays_open events ≡ true
    → s.is_closed ≡ false
    → (run_stream events s).is_closed ≡ false
unfolding run_stream
run-open [] s o c = c
run-open (e ∷ events) s o c =
    run-open events (stream_step e s) (ground arith) (step-open e s (ground arith) c)

event-names :
    (e : MailboxEvent) (id : String) (s : Stream)
    → e.message_id ≡ some id
    → s.is_closed ≡ false
    → is_noted id (stream_step (mailbox (some e)) s) ≡ true
unfolding stream_step on_mailbox
event-names e id s named o = rw o (rw named (note-names e.kind id _))

-- An open stream, its timers in order, that owes a refetch of the email.
record Owes (id : String) (asked : List Refetch) (s : Stream) : Type 0 where
  timed : IsTimed s
  is_open : s.is_closed ≡ false
  awaited : Awaited id asked s

run-Owes :
    (id : String) (asked : List Refetch) (events : List StreamEvent) (s : Stream)
    → all stays_open events ≡ true
    → Owes id asked s
    → Owes id asked (run_stream events s)
unfolding run_stream
run-Owes id asked [] s o w = w
run-Owes id asked (e ∷ events) s o w =
    run-Owes id asked events (stream_step e s) (ground arith) (record {
      timed = step-IsTimed e s w.timed;
      is_open = step-open e s (ground arith) w.is_open;
      awaited = step-Awaited id asked s e (ground arith) w.awaited;
    })

noted-has_timer :
    (id : String) (s : Stream)
    → IsTimed s
    → s.is_closed ≡ false
    → is_noted id s ≡ true
    → s.has_timer ≡ true
noted-has_timer id s t o h = let e = t.timed in ground (arith, has_any_of-includes s.changed_ids id)

Owes-Covered :
    (id : String) (asked : List Refetch) (s : Stream)
    → Owes id asked s
    → Covered id asked (stream_step flush_tick s)
unfolding Awaited stream_step
Owes-Covered id asked s w = go w.awaited
  where
    go : Awaited id asked s → Covered id asked (stream_step flush_tick s)
    go (inr c) = Covered-Grows id asked s _ c (step-Grows flush_tick s)
    go (inl h) =
        let e = noted-has_timer id s w.timed w.is_open h.noted in
        rw (ap (λ b. if b then flush s else s) e) (flush-Covered id asked s h)

-- When an event names an email on a stream that is open, then whatever comes before the timer of
-- the burst fires, short of leaving the page, the list that shows the email has been asked for by
-- then: since the event an update of the email's pages, or of every page, is among what was asked.
pub run_stream-refetches :
    (e : MailboxEvent) (id : String) (before during : List StreamEvent)
    → e.message_id ≡ some id
    → all stays_open before ≡ true
    → all stays_open during ≡ true
    → let s = run_stream before opened_stream in
      Covered id s.asked
        (stream_step flush_tick (run_stream during (stream_step (mailbox (some e)) s)))
unfolding Awaited
run_stream-refetches e id before during named ob od = Owes-Covered id s.asked _ (
    run-Owes id s.asked during _ od (record {
      timed = step-IsTimed (mailbox (some e)) s timed;
      is_open = step-open (mailbox (some e)) s refl is_open;
      awaited = inl (record {
        since = (step-Grows (mailbox (some e)) s).added;
        is_since = (step-Grows (mailbox (some e)) s).is_added;
        noted = named_noted s is_open;
      });
    }))
  where
    s : Stream
    s = run_stream before opened_stream

    timed : IsTimed s
    timed = run_stream-IsTimed before

    is_open : s.is_closed ≡ false
    is_open = run-open before opened_stream ob refl

    named_noted :
        (t : Stream) → t.is_closed ≡ false → is_noted id (stream_step (mailbox (some e)) t) ≡ true
    named_noted t o = event-names e id t named o
