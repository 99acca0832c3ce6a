-- ===== src/Gestures/PressOnce.antt =====
-- One touch is at most one gesture.
use token_dance_chat.Base.{
  ℕ, ◌+◌, ◌≤◌, ◌≡◌, refl, Bool, true, false, ◌&&◌, List, [], ◌∷◌, Option, none, some, length, arith,
}
use token_dance_chat.Gestures.Press.{
  TouchState, Gesture, PressState, idle_press, on_touch_start, move_touch, on_touch_move, swipe_of,
  on_touch_end, press_touch, on_long_press_timer, on_unmount, fire,
}

pub data TouchEvent : Type 0 where
  starts : ℕ → ℕ → ℕ → TouchEvent
  moves : ℕ → ℕ → TouchEvent
  ends : ℕ → ℕ → ℕ → TouchEvent
  timer_fires unmounts : TouchEvent

unfoldable pub press_step : TouchEvent → PressState → PressState × List Gesture
press_step (starts x y now) s = (on_touch_start x y now s, [])
press_step (moves x y) s = (on_touch_move x y s, [])
press_step (ends x y now) s = on_touch_end x y now s
press_step timer_fires s = on_long_press_timer s
press_step unmounts s = (on_unmount s, [])

-- The number of gestures of a run, and of touches that start in it.
unfoldable pub gestures : List TouchEvent → PressState → ℕ
gestures [] s = 0
gestures (e ∷ es) s = length (press_step e s).1 + gestures es (press_step e s).0

abbrev pub is_start : TouchEvent → ℕ
is_start (starts x y now) = 1
is_start _ = 0

unfoldable pub touches : List TouchEvent → ℕ
touches [] = 0
touches (e ∷ es) = is_start e + touches es

-- The gestures that the touch may still become.
abbrev left_of : Option TouchState → Bool → ℕ
left_of none triggered = 0
left_of (some t) true = 0
left_of (some t) false = 1

abbrev left : PressState → ℕ
left s = left_of s.touch s.long_press_triggered

-- A timer is pending only before the long press.
Fresh : PressState → Type 0
Fresh s = (s.timer_pending && s.long_press_triggered) ≡ false

move_touch-left :
    (o : Option TouchState) (x y : ℕ) (s : PressState)
    → s.touch ≡ o
    → Fresh s
    → (left (move_touch o x y s) ≡ left s) × Fresh (move_touch o x y s)
unfolding move_touch Fresh
move_touch-left none x y s e f = (refl, f)
move_touch-left (some t) x y s e f = ground arith

swipe_of-length :
    (o : Option TouchState) (b : Bool) (x y now : ℕ) → length (swipe_of o b x y now) ≤ left_of o b
unfolding swipe_of
swipe_of-length none b x y now = omega arith
swipe_of-length (some t) true x y now = omega arith
swipe_of-length (some t) false x y now = ground arith

press_touch-left :
    (o : Option TouchState) (s : PressState)
    → s.touch ≡ o
    → s.long_press_triggered ≡ false
    → s.timer_pending ≡ false
    → (length (press_touch o s).1 + left (press_touch o s).0 ≤ left s) × Fresh (press_touch o s).0
unfolding press_touch Fresh
press_touch-left none s e f p = ground arith
press_touch-left (some t) s e f p = ground arith

fire-left :
    (b : Bool) (s : PressState)
    → s.timer_pending ≡ b
    → Fresh s
    → (length (fire b s).1 + left (fire b s).0 ≤ left s) × Fresh (fire b s).0
unfolding fire
fire-left false s e f = (omega arith, f)
fire-left true s e f =
    press_touch-left s.touch (record s { timer_pending = false }) refl
      (unfold Fresh in ground (arith, e)) refl

step-left :
    (e : TouchEvent) (s : PressState)
    → Fresh s
    → (length (press_step e s).1 + left (press_step e s).0 ≤ left s + is_start e)
      × Fresh (press_step e s).0
unfolding press_step on_touch_start on_touch_move on_touch_end on_long_press_timer on_unmount Fresh
step-left (starts x y now) s f = ground arith
step-left (moves x y) s f =
    let (same, fresh) = move_touch-left s.touch x y s refl (unfold Fresh in f) in
    (omega (arith, same), unfold Fresh in fresh)
step-left (ends x y now) s f =
    let few = swipe_of-length s.touch s.long_press_triggered x y now in (omega (arith, few), refl)
step-left timer_fires s f =
    let (few, fresh) = fire-left s.timer_pending s refl (unfold Fresh in f) in
    (omega (arith, few), unfold Fresh in fresh)
step-left unmounts s f = ground arith

run-left : (es : List TouchEvent) (s : PressState) → Fresh s → gestures es s ≤ left s + touches es
unfolding gestures touches
run-left [] s f = omega arith
run-left (e ∷ es) s f =
    let (few, fresh) = step-left e s f in
    let later = run-left es (press_step e s).0 fresh in omega (arith, few, later)

-- Whatever touches, movements, timers and unmounts come in whatever order, an element makes at most
-- one gesture for each touch that starts on it: a long press is never also a swipe.
pub gestures-idle_press : (es : List TouchEvent) → gestures es idle_press ≤ touches es
unfolding Fresh
gestures-idle_press es = let few = run-left es idle_press refl in omega (arith, few)
