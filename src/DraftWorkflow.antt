-- ===== src/DraftWorkflow.antt =====
-- lib/useDraftWorkflow.ts: regenerate, refine, schedule and send for one email at a time. A handler
-- of the hook is a function of what its render saw (`Render`) and of the hook's own state
-- (`Workflow`); a request to the service is a `Job` in the list `issued`, and its answer is an event
-- of its own. A handler is taken from the last render, as React gives it to the controls.
pub mod Types
pub mod Requests
pub mod Countdown
pub mod View
pub mod Actions
pub mod Events
mod Cases
pub mod Keeps
pub mod Window
pub mod Approvals
pub mod Settled
pub mod Answers
pub mod Guards
pub mod Seconds
pub mod Tests
