-- ===== src/Handlers.antt =====
-- frontend/src/hooks/useWebSocket.ts: the handlers that carry the server's frames into the store.
pub mod Stream
pub mod Accumulate
pub mod Placeholder
pub mod Frames
pub mod Roster
pub mod Flapping
pub mod Rooms
pub mod Muting
pub mod Mentions
pub mod TypingTimers
pub mod Presence
pub mod Session
mod Tests
