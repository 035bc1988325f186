-- ===== src/ComposeEditor.antt =====
-- lib/useComposeDraft.ts: the editor of a new email. Fields are saved a while after the last key, by
-- saves that run one after another; every action waits for them. Proofs stand in the children that
-- name what they prove.
pub mod Edits
pub mod Types
pub mod Saving
pub mod Tasks
pub mod Actions
pub mod Events
pub mod Follows
pub mod Handlers
pub mod Kept
pub mod Stages
pub mod StaleSave
pub mod Guards
pub mod Cleared
pub mod Tests
pub mod Typing
