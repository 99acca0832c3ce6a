-- ===== src/Gestures/Pull.antt =====
-- `usePullDownGesture`: pulling down at the top of a list.
use token_dance_chat.Base.{
  ℕ, ◌+◌, ◌*◌, ◌≤◌, ◌≡◌, refl, Bool, true, false, not, ◌&&◌, ◌||◌, List, [], ◌∷◌, Option, none,
  some, ltb, arith, if◌then◌else◌,
}
use token_dance_chat.Gestures.Press.{TouchState, apart}

abbrev pub pull_down_threshold : ℕ
pull_down_threshold = 80

pub record PullState : Type 0 where
  pub touch : Option TouchState
  pub pull_triggered : Bool

abbrev pub idle_pull : PullState
idle_pull = record { touch = none; pull_triggered = false }

-- `none` is a container that is not mounted; `some` gives its `scrollTop`.
unfoldable pub on_touch_start : Option ℕ → ℕ → ℕ → ℕ → PullState → PullState
on_touch_start none x y now s = s
on_touch_start (some scroll_top) x y now s = if ltb 5 scroll_top then s else record s {
  touch = some (record { start_x = x; start_y = y; start_time = now; moved = false });
  pull_triggered = false;
}

-- Primarily vertical, and downwards: `dy > 80 && dy > dx * 1.5`.
unfoldable pub is_pull : TouchState → ℕ → ℕ → Bool
is_pull t x y =
    ltb (t.start_y + pull_down_threshold) y && ltb (2 * t.start_y + 3 * apart x t.start_x) (2 * y)

-- The state, and whether `onPullDown` is called.
unfoldable pub pull_touch : Option TouchState → Bool → ℕ → ℕ → PullState → PullState × Bool
pull_touch none is_loading x y s = (s, false)
pull_touch (some t) is_loading x y s =
    if not (s.pull_triggered || is_loading) && is_pull t x y
    then (record s { pull_triggered = true }, true)
    else (s, false)

unfoldable pub on_touch_move : Bool → ℕ → ℕ → PullState → PullState × Bool
on_touch_move is_loading x y s = pull_touch s.touch is_loading x y s

unfoldable pub on_touch_end : PullState → PullState
on_touch_end s = record s { touch = none }

pub data PullEvent : Type 0 where
  starts : Option ℕ → ℕ → ℕ → ℕ → PullEvent
  moves : Bool → ℕ → ℕ → PullEvent
  ends : PullEvent

unfoldable pub pull_step : PullEvent → PullState → PullState × Bool
pull_step (starts top x y now) s = (on_touch_start top x y now s, false)
pull_step (moves is_loading x y) s = on_touch_move is_loading x y s
pull_step ends s = (on_touch_end s, false)

abbrev one_if : Bool → ℕ
one_if true = 1
one_if false = 0

-- The pulls of a run, and the touches that start at the top of the list in it.
unfoldable pub pulls : List PullEvent → PullState → ℕ
pulls [] s = 0
pulls (e ∷ es) s = one_if (pull_step e s).1 + pulls es (pull_step e s).0

abbrev pub starts_at_top : PullEvent → ℕ
starts_at_top (starts none x y now) = 0
starts_at_top (starts (some top) x y now) = if ltb 5 top then 0 else 1
starts_at_top _ = 0

unfoldable pub touches_at_top : List PullEvent → ℕ
touches_at_top [] = 0
touches_at_top (e ∷ es) = starts_at_top e + touches_at_top es

abbrev is_touched : Option TouchState → Bool
is_touched none = false
is_touched (some t) = true

-- The pulls that the touch may still become.
abbrev left : PullState → ℕ
left s = one_if (is_touched s.touch && not s.pull_triggered)

pull_touch-left :
    (o : Option TouchState) (is_loading : Bool) (x y : ℕ) (s : PullState)
    → s.touch ≡ o
    → let t = pull_touch o is_loading x y s in one_if t.1 + left t.0 ≤ left s
unfolding pull_touch
pull_touch-left none is_loading x y s e = omega arith
pull_touch-left (some t) is_loading x y s e = ground arith

step-left :
    (e : PullEvent) (s : PullState)
    → one_if (pull_step e s).1 + left (pull_step e s).0 ≤ left s + starts_at_top e
unfolding pull_step on_touch_start on_touch_move on_touch_end
step-left (starts none x y now) s = omega arith
step-left (starts (some top) x y now) s = ground arith
step-left (moves is_loading x y) s =
    let few = pull_touch-left s.touch is_loading x y s refl in omega (arith, few)
step-left ends s = ground arith

run-left : (es : List PullEvent) (s : PullState) → pulls es s ≤ left s + touches_at_top es
unfolding pulls touches_at_top
run-left [] s = omega arith
run-left (e ∷ es) s =
    let few = step-left e s in
    let later = run-left es (pull_step e s).0 in omega (arith, few, later)

-- However often the finger moves, the list is pulled down at most once for each touch that starts
-- within five pixels of its top.
pub pulls-idle_pull : (es : List PullEvent) → pulls es idle_pull ≤ touches_at_top es
pulls-idle_pull es = let few = run-left es idle_pull in omega (arith, few)
