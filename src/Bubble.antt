-- ===== src/Bubble.antt =====
-- frontend/src/components/MessageBubble.tsx: the blocks of code in the text of a message.
pub mod CodeBlocks
pub mod Parts
pub mod Blocks
pub mod Segments
pub mod Spelling
pub mod Torn
mod Tests
