-- ===== src/LiveInbox.antt =====
-- lib/queries/events.ts: the event stream of the inbox, one per tab. The stream, its timers and its
-- answers are events; what is asked of the query client is kept as a list of values.
use aimail.Base.{
  ℕ, ◌+◌, Bool, true, false, ◌||◌, ◌&&◌, not, Option, none, some, List, [], ◌∷◌, ◌++◌, String,
  ◌===◌, string_eq, includes, is_some, ltb, if◌then◌else◌,
}
use aimail.Base.Maps.{get}
pub mod Refresh
pub mod Paging
pub mod Timers
pub mod Covers
pub mod Noted
pub mod Bursts
pub mod Tests

pub data LiveState : Type 0 where
  off live reconnecting : LiveState

pub data EventKind : Type 0 where
  new draft state resync : EventKind

pub record MailboxEvent : Type 0 where
  pub kind : EventKind
  pub message_id : Option String

abbrev pub failures_before_polling : ℕ
failures_before_polling = 3

-- What the code tells apart in the answer of `JSON.parse`: a list is an object without these fields.
pub data Field : Type 0 where
  text : String → Field
  null other : Field

pub data Parsed : Type 0 where
  object : List (String × Field) → Parsed
  not_object : Parsed

unfoldable pub kinds : List (String × EventKind)
kinds = ("new", new) ∷ ("draft", draft) ∷ ("state", EventKind.state) ∷ ("resync", resync) ∷ []

-- `isKind`, with the kind that it finds.
unfoldable pub kind_of : Option Field → Option EventKind
kind_of (some (text name)) = get name kinds
kind_of _ = none

-- The message's id, where the field is there; `none` when it is neither an id nor null.
unfoldable pub message_id_of : Option Field → Option (Option String)
message_id_of none = some none
message_id_of (some null) = some none
message_id_of (some (text id)) = some (some id)
message_id_of (some other) = none

unfoldable pub event_with : Option EventKind → Option (Option String) → Option MailboxEvent
event_with (some kind) (some message_id) = some (record { kind = kind; message_id = message_id })
event_with _ _ = none

unfoldable pub event_from : Option Parsed → Option MailboxEvent
event_from (some (object fields)) =
    event_with (kind_of (get "kind" fields)) (message_id_of (get "messageId" fields))
event_from _ = none

-- `parseEvent`, over `JSON.parse`, which is `none` where it throws.
unfoldable pub parse_event : (String → Option Parsed) → Option String → Option MailboxEvent
parse_event parse none = none
parse_event parse (some data_text) = event_from (parse data_text)

-- `isActive`, and what the page is told.
unfoldable pub is_stream_active : Bool → Bool → Bool → Bool
is_stream_active is_enabled is_demo is_signed_in = is_enabled && not is_demo && is_signed_in

unfoldable pub told : Bool → LiveState → LiveState
told is_wanted shown = if is_wanted then shown else off

-- What the stream asks of the query client: one email again, the changed emails and To-do, or
-- every page and To-do.
pub data Refetch : Type 0 where
  email : String → Refetch
  changed : List String → Refetch
  everything : Refetch

-- `openStream` with its `inboxChanges` and `coalesced`. A timer is there or it is not.
pub record Stream : Type 0 where
  pub state : LiveState
  pub failures : ℕ
  pub has_poll : Bool
  pub changed_ids : List String
  pub is_everything : Bool
  pub has_timer : Bool
  pub is_closed : Bool
  pub asked : List Refetch

abbrev pub opened_stream : Stream
opened_stream = record {
  state = off;
  failures = 0;
  has_poll = false;
  changed_ids = [];
  is_everything = false;
  has_timer = false;
  is_closed = false;
  asked = [];
}

pub data StreamEvent : Type 0 where
  opened errored : StreamEvent
  mailbox : Option MailboxEvent → StreamEvent
  poll_tick flush_tick closed : StreamEvent

unfoldable pub ask : Refetch → Stream → Stream
ask r s = record s { asked = s.asked ++ r ∷ [] }

-- `trigger`: a timer that runs already is kept.
unfoldable pub trigger : Stream → Stream
trigger s = record s { has_timer = true }

-- `Set.add`.
unfoldable pub with_id : String → List String → List String
with_id id ids = if includes ids id then ids else ids ++ id ∷ []

unfoldable pub note_email : String → Stream → Stream
note_email id s = trigger (record s { changed_ids = with_id id s.changed_ids })

unfoldable pub note_everything : Stream → Stream
note_everything s = trigger (record s { is_everything = true })

unfoldable pub on_open : Stream → Stream
on_open s = note_everything (record s { failures = 0; has_poll = false; state = live })

-- `onerror`: the polling starts at the third failure, once.
unfoldable pub on_error : Stream → Stream
on_error s = record s {
  failures = s.failures + 1;
  state = reconnecting;
  has_poll =
      if ltb (s.failures + 1) failures_before_polling || s.has_poll then s.has_poll else true;
}

unfoldable pub is_draft : EventKind → Bool
is_draft draft = true
is_draft _ = false

-- `isWholeInbox`.
unfoldable pub is_whole_inbox : EventKind → Bool
is_whole_inbox resync = true
is_whole_inbox new = true
is_whole_inbox _ = false

unfoldable pub note : EventKind → Option String → Stream → Stream
note kind none s = note_everything s
note kind (some id) s = if is_whole_inbox kind then note_everything s else note_email id s

unfoldable pub refetch_draft : EventKind → Option String → Stream → Stream
refetch_draft kind none s = s
refetch_draft kind (some id) s = if is_draft kind then ask (email id) s else s

-- The listener of "mailbox"; a message that is no event is let go.
unfoldable pub on_mailbox : Option MailboxEvent → Stream → Stream
on_mailbox none s = s
on_mailbox (some e) s = note e.kind e.message_id (refetch_draft e.kind e.message_id s)

-- What the timer runs.
abbrev pub burst : Stream → Refetch
burst s = if s.is_everything then everything else changed s.changed_ids

unfoldable pub flush : Stream → Stream
flush s = ask (burst s) (record s { has_timer = false; changed_ids = []; is_everything = false })

-- The function that `openStream` returns; what is noted stays, and is never asked for.
unfoldable pub close : Stream → Stream
close s = record s { is_closed = true; has_poll = false; has_timer = false }

-- One event. A source that is closed delivers none, and a timer fires only where it is there.
unfoldable pub stream_step : StreamEvent → Stream → Stream
stream_step opened s = if s.is_closed then s else on_open s
stream_step errored s = if s.is_closed then s else on_error s
stream_step (mailbox e) s = if s.is_closed then s else on_mailbox e s
stream_step poll_tick s = if s.has_poll then ask everything s else s
stream_step flush_tick s = if s.has_timer then flush s else s
stream_step closed s = if s.is_closed then s else close s

unfoldable pub run_stream : List StreamEvent → Stream → Stream
run_stream [] s = s
run_stream (e ∷ events) s = run_stream events (stream_step e s)
