-- ===== src/LiveInbox/Timers.antt =====
-- lib/queries/events.ts: the two timers of the stream, over any history.
use aimail.Base.{
  Bool, true, false, ◌&&◌, ◌||◌, not, List, [], ◌∷◌, ◌++◌, String, string_eq, includes, leb, Option,
  none, some, ◌≡◌, refl, arith, if_rule,
}
use aimail.LiveInbox.{
  StreamEvent, Stream, LiveState, live, opened, errored, mailbox, poll_tick, flush_tick, closed,
  EventKind, opened_stream, stream_step, run_stream, on_open, on_error, on_mailbox, refetch_draft,
  note, note_email, note_everything, with_id, trigger, flush, close, ask, is_draft, is_whole_inbox,
}

abbrev pub has_any : List String → Bool
has_any [] = false
has_any (id ∷ ids) = true

abbrev pub is_live : LiveState → Bool
is_live live = true
is_live _ = false

-- A flush is on its way exactly while something is noted, the fallback polls exactly from the third
-- failure in a row, and "live" is shown with no failure behind it.
pub record IsTimed (s : Stream) : Type 0 where
  pub timed : s.has_timer ≡ (not s.is_closed && (s.is_everything || has_any s.changed_ids))
  pub polls : s.has_poll ≡ (not s.is_closed && leb 3 s.failures)
  pub fresh : is_live s.state ≡ true → s.failures ≡ 0

has_any-append : (ids : List String) (id : String) → has_any (ids ++ id ∷ []) ≡ true
has_any-append [] id = refl
has_any-append (x ∷ ids) id = refl

pub has_any_of-includes :
    (ids : List String) (id : String) → includes ids id ≡ true → has_any ids ≡ true
has_any_of-includes [] id h = h
has_any_of-includes (x ∷ ids) id h = refl

has_any-with_id : (id : String) (ids : List String) → has_any (with_id id ids) ≡ true
unfolding with_id
has_any-with_id id ids = ground (arith, has_any-append ids id, has_any_of-includes ids id)

module _ (s : Stream) (t : IsTimed s) (o : s.is_closed ≡ false) where
  on_error-IsTimed : IsTimed (on_error s)
  unfolding on_error
  on_error-IsTimed = record {
    timed = t.timed;
    polls = ground (arith, o, t.polls);
    fresh = λ h. ground arith;
  }

  everything-IsTimed : IsTimed (note_everything s)
  unfolding note_everything trigger
  everything-IsTimed = record { timed = ground (arith, o); polls = t.polls; fresh = t.fresh }

  email-IsTimed : (id : String) → IsTimed (note_email id s)
  unfolding note_email trigger
  email-IsTimed id = record {
    timed = ground (arith, o, has_any-with_id id s.changed_ids);
    polls = t.polls;
    fresh = t.fresh;
  }

on_open-IsTimed : (s : Stream) → s.is_closed ≡ false → IsTimed (on_open s)
unfolding on_open note_everything trigger
on_open-IsTimed s o = record {
  timed = ground (arith, o);
  polls = ground (arith, o);
  fresh = λ h. refl;
}

ask-IsTimed : (s : Stream) (r : _) → IsTimed s → IsTimed (ask r s)
unfolding ask
ask-IsTimed s r t = record { timed = t.timed; polls = t.polls; fresh = t.fresh }

note-IsTimed :
    (kind : EventKind) (id : Option String) (s : Stream)
    → IsTimed s
    → s.is_closed ≡ false
    → IsTimed (note kind id s)
unfolding note is_whole_inbox
note-IsTimed kind none s t o = everything-IsTimed s t o
note-IsTimed EventKind.new (some id) s t o = everything-IsTimed s t o
note-IsTimed EventKind.draft (some id) s t o = email-IsTimed s t o id
note-IsTimed EventKind.state (some id) s t o = email-IsTimed s t o id
note-IsTimed EventKind.resync (some id) s t o = everything-IsTimed s t o

on_mailbox-IsTimed :
    (e : _) (s : Stream) → IsTimed s → s.is_closed ≡ false → IsTimed (on_mailbox e s)
unfolding on_mailbox refetch_draft is_draft ask
on_mailbox-IsTimed none s t o = t
on_mailbox-IsTimed (some e) s t o = kept e.kind e.message_id
  where
    kept :
        (kind : EventKind) (id : Option String) → IsTimed (note kind id (refetch_draft kind id s))
    kept kind none = note-IsTimed kind none s t o
    kept EventKind.draft (some id) =
        note-IsTimed EventKind.draft (some id) (ask _ s) (ask-IsTimed s _ t) o
    kept EventKind.new (some id) = note-IsTimed EventKind.new (some id) s t o
    kept EventKind.state (some id) = note-IsTimed EventKind.state (some id) s t o
    kept EventKind.resync (some id) = note-IsTimed EventKind.resync (some id) s t o

flush-IsTimed : (s : Stream) → IsTimed s → s.is_closed ≡ false → IsTimed (flush s)
unfolding flush ask
flush-IsTimed s t o = record { timed = ground (arith, o); polls = t.polls; fresh = t.fresh }

close-IsTimed : (s : Stream) → IsTimed s → IsTimed (close s)
unfolding close
close-IsTimed s t = record { timed = refl; polls = refl; fresh = t.fresh }

-- A timer that is there runs on a stream that is open.
open_of_timer : (s : Stream) → IsTimed s → s.has_timer ≡ true → s.is_closed ≡ false
open_of_timer s t h = let e = t.timed in ground arith

pub step-IsTimed : (e : StreamEvent) (s : Stream) → IsTimed s → IsTimed (stream_step e s)
unfolding stream_step
step-IsTimed opened s t = if_rule IsTimed s.is_closed (λ _. t) (on_open-IsTimed s)
step-IsTimed errored s t = if_rule IsTimed s.is_closed (λ _. t) (on_error-IsTimed s t)
step-IsTimed (mailbox e) s t = if_rule IsTimed s.is_closed (λ _. t) (on_mailbox-IsTimed e s t)
step-IsTimed poll_tick s t = if_rule IsTimed s.has_poll (λ _. ask-IsTimed s _ t) (λ _. t)
step-IsTimed flush_tick s t =
    if_rule IsTimed s.has_timer (λ h. flush-IsTimed s t (open_of_timer s t h)) (λ _. t)
step-IsTimed closed s t = if_rule IsTimed s.is_closed (λ _. t) (λ _. close-IsTimed s t)

run-IsTimed : (events : List StreamEvent) (s : Stream) → IsTimed s → IsTimed (run_stream events s)
unfolding run_stream
run-IsTimed [] s t = t
run-IsTimed (e ∷ events) s t = run-IsTimed events (stream_step e s) (step-IsTimed e s t)

-- After any history of the stream a flush is on its way exactly while something noted is not yet
-- fetched again, the fallback polls exactly from the third failure in a row until the stream is
-- back, neither does once the stream is closed, and "live" is shown with no failure behind it only.
pub run_stream-IsTimed : (events : List StreamEvent) → IsTimed (run_stream events opened_stream)
run_stream-IsTimed events =
    run-IsTimed events opened_stream (record { timed = refl; polls = refl; fresh = λ h. refl })
