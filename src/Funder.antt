-- ===== src/Funder.antt =====
-- components/funder/src: the state of the funder and of its friends, and the handlers that change it.
pub mod Action
pub mod Messages
pub mod Friend
pub mod State
pub mod Liveness
pub mod Wrap
pub mod Utils
pub mod Sender
pub mod Canceler
pub mod Presence
mod Tests
