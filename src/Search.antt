-- ===== src/Search.antt =====
-- frontend/src/components/ConversationSearch.tsx: searching the messages that are shown.
--
-- The browser's `String.trim` and `toLowerCase` are arguments. Focus and markup are not modelled.
pub mod Results
pub mod Index
mod Tests
