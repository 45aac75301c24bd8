-- ===== src/StateRes/Auth.antt =====
-- src/core/matrix/state_res/event_auth.rs: the authorisation rules for events.
pub mod Types
pub mod Invite
pub mod Levels
pub mod Send
pub mod Membership
pub mod Check
