-- ===== src/Gestures/Swipe.antt =====
-- `useSwipeableMessage`: a message that is swept to the left to show its actions.
use token_dance_chat.Base.{
  ℕ, ◌+◌, ◌-◌, Bool, true, false, not, ◌&&◌, ◌||◌, List, [], ◌∷◌, ltb, if◌then◌else◌,
}
use token_dance_chat.Gestures.Press.{apart}

abbrev pub action_width : ℕ
action_width = 180

abbrev pub swipe_activate_threshold : ℕ
swipe_activate_threshold = 10

-- `ACTION_WIDTH * SWIPE_SNAP_THRESHOLD`
abbrev pub snap_width : ℕ
snap_width = 72

-- `translateX` is never positive: `reveal` is what it is below zero.
pub record SwipeState : Type 0 where
  pub reveal : ℕ
  pub show_actions : Bool
  pub start_x : ℕ
  pub start_y : ℕ
  pub prev_reveal : ℕ
  pub active : Bool
  pub swipe_active : Bool

abbrev pub idle_swipe : SwipeState
idle_swipe = record {
  reveal = 0;
  show_actions = false;
  start_x = 0;
  start_y = 0;
  prev_reveal = 0;
  active = false;
  swipe_active = false;
}

unfoldable pub on_touch_start : Bool → ℕ → ℕ → SwipeState → SwipeState
on_touch_start disabled x y s = if disabled then s else record s {
  start_x = x;
  start_y = y;
  prev_reveal = s.reveal;
  active = true;
  swipe_active = false;
}

-- `Math.max(-ACTION_WIDTH, Math.min(0, prevTranslateX + dx))`
unfoldable pub clamped : ℕ → SwipeState → ℕ
clamped x s =
    let raw = (s.prev_reveal + s.start_x) - x in if ltb action_width raw then action_width else raw

unfoldable pub translate : ℕ → SwipeState → SwipeState
translate x s = record s { reveal = clamped x s }

-- The direction, where it is not yet determined.
unfoldable pub determine : ℕ → ℕ → SwipeState → SwipeState
determine x y s =
    let dx = apart x s.start_x in
    let dy = apart y s.start_y in
    if ltb swipe_activate_threshold dx && ltb dy dx
    then translate x (record s { swipe_active = true })
    else if ltb swipe_activate_threshold dy && ltb dx dy
    then record s { active = false }
    else s

unfoldable pub on_touch_move : ℕ → ℕ → SwipeState → SwipeState
on_touch_move x y s =
    if not s.active then s else if s.swipe_active then translate x s else determine x y s

unfoldable pub on_touch_end : SwipeState → SwipeState
on_touch_end s =
    let rests = record s { active = false; swipe_active = false } in
    let snaps = ltb snap_width s.reveal in
    if not s.active || not s.swipe_active
    then rests
    else record rests { reveal = if snaps then action_width else 0; show_actions = snaps }

unfoldable pub close_actions : SwipeState → SwipeState
close_actions s = record s { reveal = 0; show_actions = false }

pub data SwipeEvent : Type 0 where
  starts : Bool → ℕ → ℕ → SwipeEvent
  moves : ℕ → ℕ → SwipeEvent
  ends closes : SwipeEvent

unfoldable pub swipe_step : SwipeEvent → SwipeState → SwipeState
swipe_step (starts disabled x y) s = on_touch_start disabled x y s
swipe_step (moves x y) s = on_touch_move x y s
swipe_step ends s = on_touch_end s
swipe_step closes s = close_actions s

unfoldable pub swipe : List SwipeEvent → SwipeState → SwipeState
swipe [] s = s
swipe (e ∷ es) s = swipe es (swipe_step e s)
