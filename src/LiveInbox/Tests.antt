-- ===== src/LiveInbox/Tests.antt =====
-- lib/queries/events.ts and inboxRefresh.ts: a draft that is written while the stream is open, and a
-- change on page 1 of two.
use aimail.Base.{true, false, Option, none, some, List, [], ◌∷◌, String, ◌≡◌, refl, string_eq}
use aimail.LiveInbox.{
  StreamEvent, MailboxEvent, EventKind, opened, errored, mailbox, poll_tick, flush_tick,
  opened_stream, stream_step, run_stream, on_open, on_mailbox, on_error, note, note_email,
  note_everything, trigger, with_id, flush, ask, refetch_draft, is_draft, is_whole_inbox, email,
  changed, everything, parse_event, event_from, event_with, kind_of, message_id_of, kinds, object,
  text,
}
use aimail.Base.Maps.{get}
use aimail.LiveInbox.Timers.{IsTimed, run_stream-IsTimed}
use aimail.LiveInbox.Covers.{Covered}
use aimail.LiveInbox.Bursts.{run_stream-refetches}
use aimail.LiveInbox.Refresh.{
  EmailPage, Inbox, refresh_changed_emails, first_page_only, page_one_of, swap, is_on, same_cursor,
}
use aimail.LiveInbox.Paging.{load, load_after, refresh-reloads}

abbrev draft_written : MailboxEvent
draft_written = record { kind = EventKind.draft; message_id = some "m1" }

abbrev history : List StreamEvent
history = opened ∷ flush_tick ∷ []

asked_in_order :
    (run_stream
      (opened ∷ flush_tick ∷ mailbox (some draft_written) ∷ errored ∷ flush_tick ∷ [])
      opened_stream).asked
    ≡ everything ∷ email "m1" ∷ changed ("m1" ∷ []) ∷ []
unfolding run_stream stream_step on_open on_mailbox on_error note note_email note_everything trigger
    with_id flush ask refetch_draft is_draft is_whole_inbox
asked_in_order = refl

three_failures :
    (run_stream (errored ∷ errored ∷ errored ∷ poll_tick ∷ []) opened_stream).asked
    ≡ everything ∷ []
unfolding run_stream stream_step on_error ask
three_failures = refl

parsed_draft :
    parse_event
      (λ _. some (object (("kind", text "draft") ∷ ("messageId", text "m1") ∷ [])))
      (some "...")
    ≡ some draft_written
unfolding parse_event event_from event_with kind_of message_id_of kinds get
parsed_draft = refl

run_stream-IsTimed_example :
    IsTimed (run_stream (errored ∷ errored ∷ errored ∷ opened ∷ []) opened_stream)
run_stream-IsTimed_example = run_stream-IsTimed (errored ∷ errored ∷ errored ∷ opened ∷ [])

run_stream-refetches_example : Covered "m1" (run_stream history opened_stream).asked (
    stream_step flush_tick (
      run_stream
        (errored ∷ [])
        (stream_step (mailbox (some draft_written)) (run_stream history opened_stream))))
run_stream-refetches_example =
    run_stream-refetches draft_written "m1" history (errored ∷ []) refl refl refl

-- Two pages; the email at the top of page 1 is replaced by another.
abbrev later_page : EmailPage
later_page = record { emails = "c" ∷ []; next_cursor = none }

abbrev old_pages : Option String → EmailPage
old_pages none = record { emails = "a" ∷ "b" ∷ []; next_cursor = some "b" }
old_pages (some c) = later_page

abbrev new_pages : Option String → EmailPage
new_pages none = record { emails = "x" ∷ "b" ∷ []; next_cursor = some "b" }
new_pages (some c) = later_page

abbrev cached : Inbox
cached = record { pages = old_pages none ∷ later_page ∷ []; is_active = true; is_fetching = false }

refresh-reloads_example :
    (new_pages none ∷ later_page ∷ [] ≡ load new_pages 2)
    × (is_on ("a" ∷ []) (later_page ∷ []) ≡ false)
unfolding load load_after is_on refresh_changed_emails first_page_only page_one_of swap same_cursor
refresh-reloads_example =
    refresh-reloads old_pages new_pages 2 ("a" ∷ []) (some cached) cached
      (new_pages none ∷ later_page ∷ []) (λ c. refl) refl refl
