-- ===== src/Gestures/Press.antt =====
-- `useTouchGestures`: a long press or a swipe on one element.
use token_dance_chat.Base.{
  ℕ, ◌+◌, ◌-◌, ◌*◌, Bool, true, false, ◌&&◌, ◌||◌, List, [], ◌∷◌, Option, none, some, ltb, leb,
  if◌then◌else◌,
}

pub record TouchState : Type 0 where
  pub start_x : ℕ
  pub start_y : ℕ
  pub start_time : ℕ
  pub moved : Bool

abbrev pub swipe_threshold : ℕ
swipe_threshold = 60

abbrev pub long_press_move_tolerance : ℕ
long_press_move_tolerance = 10

-- The calls of the handlers.
pub data Gesture : Type 0 where
  swipe_left swipe_right long_press : Gesture

-- The refs of the hook; `timer_pending` is the browser's: whether the timer will still fire.
pub record PressState : Type 0 where
  pub touch : Option TouchState
  pub timer_pending : Bool
  pub long_press_triggered : Bool

abbrev pub idle_press : PressState
idle_press = record { touch = none; timer_pending = false; long_press_triggered = false }

-- `Math.abs(a - b)`
abbrev pub apart : ℕ → ℕ → ℕ
apart a b = (a - b) + (b - a)

abbrev pub clear_long_press : PressState → PressState
clear_long_press s = record s { timer_pending = false }

unfoldable pub on_touch_start : ℕ → ℕ → ℕ → PressState → PressState
on_touch_start x y now s = record {
  touch = some (record { start_x = x; start_y = y; start_time = now; moved = false });
  timer_pending = true;
  long_press_triggered = false;
}

unfoldable pub move_touch : Option TouchState → ℕ → ℕ → PressState → PressState
move_touch none x y s = s
move_touch (some t) x y s =
    if ltb long_press_move_tolerance (apart x t.start_x)
      || ltb long_press_move_tolerance (apart y t.start_y)
    then record s { touch = some (record t { moved = true }); timer_pending = false }
    else s

unfoldable pub on_touch_move : ℕ → ℕ → PressState → PressState
on_touch_move x y s = move_touch s.touch x y s

-- The horizontal movement dominates, and is fast or long.
unfoldable pub is_swipe : TouchState → ℕ → ℕ → ℕ → Bool
is_swipe t x y now =
    let dx = apart x t.start_x in
    ltb swipe_threshold dx
    && ltb (3 * apart y t.start_y) (2 * dx)
    && ((leb t.start_time now && ltb (now - t.start_time) (2 * dx))
        || ltb (3 * swipe_threshold) (2 * dx))

unfoldable pub swipe_of : Option TouchState → Bool → ℕ → ℕ → ℕ → List Gesture
swipe_of none triggered x y now = []
swipe_of (some t) true x y now = []
swipe_of (some t) false x y now =
    if is_swipe t x y now then if ltb t.start_x x then swipe_right ∷ [] else swipe_left ∷ [] else []

-- `onTouchEnd`: the state, and the calls.
unfoldable pub on_touch_end : ℕ → ℕ → ℕ → PressState → PressState × List Gesture
on_touch_end x y now s = (
  record s { touch = none; timer_pending = false },
  swipe_of s.touch s.long_press_triggered x y now,
)

unfoldable pub press_touch : Option TouchState → PressState → PressState × List Gesture
press_touch none s = (s, [])
press_touch (some t) s =
    if t.moved then (s, []) else (record s { long_press_triggered = true }, long_press ∷ [])

-- A timer that was cleared does not fire.
unfoldable pub fire : Bool → PressState → PressState × List Gesture
fire false s = (s, [])
fire true s = press_touch s.touch (record s { timer_pending = false })

-- The timer after 500 ms.
unfoldable pub on_long_press_timer : PressState → PressState × List Gesture
on_long_press_timer s = fire s.timer_pending s

-- The component goes away.
unfoldable pub on_unmount : PressState → PressState
on_unmount s = clear_long_press s
