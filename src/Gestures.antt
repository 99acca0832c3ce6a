-- ===== src/Gestures.antt =====
-- frontend/src/hooks/useTouchGestures.ts: swipes, long presses, pulling down, and a message that is
-- swiped open.
--
-- Positions are whole pixels of the window. A signed difference is compared by its two ends, and a
-- factor 1.5 is 3 / 2. `Date.now()` is an argument.
pub mod Press
pub mod PressOnce
pub mod Pull
pub mod Swipe
pub mod SwipeRest
mod Tests
