-- ===== src/Lib.antt =====
-- A verification library for the dashboard of AIMail,
-- frontend/frontend/mail-clarity-dash-main/src: the reply editor's workflow, the rules it applies
-- before anything is sent, and the demo's stand-in for the backend. Paths below are relative to
-- that directory.
--
-- The reader edits a reply in the draft workflow, which asks the guards, the details and the quiet
-- hours before it opens the undo window, and then makes requests. The demo answers those requests
-- in memory. Files:
--
-- + ApiClient, with Renewals, Counting, Fetches and Session for the proofs: lib/api/client.ts, the
--   calls under way and the renewal of the session that they share. A fetch that is answered, broken
--   off or renewed is an event; a call is known by its place.
-- + Base and its children: tests on numbers, lists with native lengths, texts as lists of UTF-16
--   code units, equality as an instance, and maps as association lists in insertion order.
-- + QuietHours: lib/quietHours.ts. A clock is minutes of the day and an ISO weekday; a moment is
--   the number of milliseconds since the earliest date that JavaScript has, and an offset from UTC a
--   sign with minutes. QuietHours.Windows, Ends, NextEnd and Suggestion prove. QuietHours.Clocks has
--   `clockAt`, `shifted` and the days.
-- + Masking, Masking.Patterns: lib/masking.ts, the regular expressions as matchers over a text;
--   Details, Details.Segments: lib/details.ts, from placeholders to the restored text; DraftGuards:
--   lib/draftGuards.ts.
-- + Email, ComposeDraft: types/email.ts and types/compose.ts, the records that the parts share.
-- + DraftWorkflow: lib/useDraftWorkflow.ts. Types has the hook's state and refs as one record,
--   `Workflow`, and what a render sees as `Render`; Requests has `runMutation` up to and after its
--   await; Countdown the undo window; View what the hook derives for the screen; Actions the
--   handlers; Events the step function over all of them. Approvals, Settled, Seconds, Guards,
--   Answers prove; Cases, Window, Keeps carry the lemmas.
-- + UndoCountdown: lib/useUndoCountdown.ts, the same window as a hook of its own for new emails.
--   Its sends are values, and its events a step function.
-- + ComposeEditor: lib/useComposeDraft.ts, the editor of a new email. Edits are the fields typed
--   over the stored ones; Saving is `saveNow` with the chain of saves as a queue; Tasks is `run`,
--   where a task carries its request and the number of saves that it waits for; Actions has the
--   fields on screen, the blockers and the handlers; Events the step function, in which a save, a
--   request, the clock and the user take turns in any order. Follows, Handlers, Kept, Typing,
--   Stages, StaleSave, Guards and Cleared prove. Demo.ComposeDelivery is about its posted email and
--   the demo's send.
-- + Inbox: lib/conversations.ts, lib/inboxFilter.ts, lib/draftAvailability.ts and lib/drafts.ts.
--   Threads is about the rows, Sorting about their order, Drafts about the drafts that wait.
-- + Recipients: lib/recipients.ts, the scanner of typed recipients as a fold over the text, and
--   Recipients.Limits about which of them fit. RecipientsInput: components/RecipientsInput.tsx, the
--   chips and the box as a step function over what the reader does; Bounds, Separated and Kept
--   prove.
-- + LiveInbox: lib/queries/events.ts, the event stream with its fallback polling and its bursts.
--   What is asked of the query client is a list of values, and a timer is there or not; Timers,
--   Covers, Noted and Bursts prove. LiveInbox.Refresh: lib/queries/inboxRefresh.ts, where an email
--   is its id, and Paging about it, with the service's pages as a function of the cursor.
-- + TodoCache: lib/queries/todo.ts, the cached To-do with the removals under way and what each
--   would put back. It holds the To-do that the demo answers. Cancelling the fetch under way and
--   taking the row out are one step. Counts, Removals, Histories and Away prove; Served, by Urgency,
--   joins it to the demo's To-do.
-- + SearchChat: components/InboxChatWidget.tsx under the key of components/AppShell.tsx, and
--   lib/api/search.ts. Replace is `replaceAll` with its patterns; Private and Answers prove.
-- + SanitizeEmail: lib/sanitizeEmail.ts, the two hooks over the nodes that DOMPurify lets through;
--   Remote and Local describe addresses of other hosts without the matchers; Blocked and Hooks
--   prove.
-- + DetectLanguage: lib/detectLanguage.ts, with the classes of Unicode and lower case as
--   parameters; Offers proves.
-- + OpenThread: extension/useOpenThread.ts and extension/messages.ts, the side panel's hook with
--   the runs of `ask` by their place, and the browser's answers in any order; Current is about the
--   runs that do not overlap. OpenThread.Urls: extension/gmailThread.ts, with Hex about the ids.
-- + TodoTabs: lib/todoTabs.ts, which list of To-do opens.
-- + ComposeList, ComposeList.Order: lib/composeList.ts.
-- + Demo: demo/state.ts, demo/request.ts, demo/compose.ts and demo/pages.ts. A handler takes a
--   call and the demo's state and gives the state that it leaves with an answer or the error that it
--   throws. Types and Json have the state, the calls and their JSON; State finds, changes and
--   records; Changes and Emails are the email routes, Compose and ComposeCalls those of the Compose
--   page, where a draft is changed in the place where the list holds it. PageTypes has what the
--   pages keep, Todo, Templates, Documents and Settings what they compute, Trail the hash chain,
--   AuditPage its page, Pages and PageRoutes the page routes. Outcomes, EmailLaws, ComposeLaws,
--   SentDrafts, ComposeDelivery, PageOutcomes, Soundness, PageSound, PageUndo, TodoLaws and
--   TrailLaws prove. The prepared texts of demo/data, the reading of a date and the ids of new
--   things are parameters, and for the pages the calendar of the reader's time zone, lower case and
--   the digest; the number of a route's body and its objects come with the route; one moment stands
--   for all the times that a call reads.
--
-- The fourteen days that `nextQuietEnd` looks ahead are its own bound, proved to be enough; the
-- loop of the working days and the hexadecimal digits of an id take a number of rounds, proved to
-- be enough; every other loop is structural recursion. The answers of the service arrive in any
-- order: an event names the request that it answers. Time zones (`Intl`), the tone checker and the
-- clock are parameters.
--
-- Not modelled: the demo's route table and how it starts afresh; React components and their
-- markup, wording and translations, the other queries, which are one line each around the client,
-- the headers and bodies of the HTTP client, the extension's page script, the tone check,
-- templates and the other helpers of lib, the Python backend and the Go listener, generated
-- schemas and test data.
pub mod Base
pub mod QuietHours
pub mod Masking
pub mod DraftGuards
pub mod Details
pub mod Email
pub mod ComposeDraft
pub mod DraftWorkflow
pub mod ApiClient
pub mod ComposeEditor
pub mod ComposeList
pub mod Demo
pub mod DetectLanguage
pub mod Inbox
pub mod LiveInbox
pub mod OpenThread
pub mod Recipients
pub mod RecipientsInput
pub mod SanitizeEmail
pub mod SearchChat
pub mod TodoCache
pub mod TodoTabs
pub mod UndoCountdown
