-- ===== src/Demo.antt =====
-- demo/: the demo's stand-in for the backend. A handler is a function of the demo's state that
-- gives the state it leaves and an answer or the error that it throws (`Demo.Types`); what it changed
-- before it threw stays changed, as in the source. One moment stands for the times that a call reads.
pub mod PageTypes
pub mod Types
pub mod Json
pub mod State
pub mod Todo
pub mod Templates
pub mod Documents
pub mod Settings
pub mod Trail
pub mod AuditPage
pub mod Pages
pub mod PageRoutes
pub mod PageOutcomes
pub mod PageUndo
pub mod TodoLaws
pub mod TrailLaws
pub mod Soundness
pub mod PageSound
pub mod PageTests
pub mod Changes
pub mod Emails
pub mod Outcomes
pub mod EmailLaws
pub mod Compose
pub mod ComposeCalls
pub mod ComposeLaws
pub mod SentDrafts
pub mod ComposeDelivery
pub mod ComposeTests
pub mod Tests
