-- ===== src/Gestures/SwipeRest.antt =====
-- Where a message that is swept comes to rest.
use token_dance_chat.Base.{
  ℕ, ◌≤◌, ◌≡◌, refl, Bool, true, false, not, ◌&&◌, ◌||◌, List, [], ◌∷◌, eqb, arith, if◌then◌else◌,
}
use token_dance_chat.Gestures.Swipe.{
  SwipeState, SwipeEvent, starts, moves, ends, closes, idle_swipe, on_touch_start, clamped,
  translate, determine, on_touch_move, on_touch_end, close_actions, swipe_step, swipe, action_width,
}

clamped-le : (x : ℕ) (s : SwipeState) → clamped x s ≤ action_width
unfolding clamped
clamped-le x s = ground arith

-- Fully closed without actions, or fully open with them, or being swept.
abbrev pub IsSettled : SwipeState → Type 0
IsSettled s = (s.swipe_active || (eqb s.reveal (if s.show_actions then action_width else 0))) ≡ true

step-le :
    (e : SwipeEvent) (s : SwipeState)
    → s.reveal ≤ action_width
    → (swipe_step e s).reveal ≤ action_width
unfolding swipe_step on_touch_start translate determine on_touch_move on_touch_end close_actions
step-le (starts disabled x y) s h = ground arith
step-le (moves x y) s h =
    ground (arith, clamped-le x s, clamped-le x (record s { swipe_active = true }))
step-le ends s h = ground arith
step-le closes s h = ground arith

-- A message is never moved by more than the width of its actions, whatever the touches are.
pub swipe-reveal :
    (es : List SwipeEvent) (s : SwipeState)
    → s.reveal ≤ action_width
    → (swipe es s).reveal ≤ action_width
unfolding swipe
swipe-reveal [] s h = h
swipe-reveal (e ∷ es) s h = swipe-reveal es (swipe_step e s) (step-le e s h)

-- No touch starts while the message is being swept.
abbrev pub undisturbed : SwipeEvent → Bool → Bool
undisturbed (starts disabled x y) swept = not swept
undisturbed _ swept = true

unfoldable pub all_undisturbed : List SwipeEvent → SwipeState → Bool
all_undisturbed [] s = true
all_undisturbed (e ∷ es) s = undisturbed e s.swipe_active && all_undisturbed es (swipe_step e s)

-- A swipe belongs to a touch.
abbrev pub IsTouched : SwipeState → Type 0
IsTouched s = (not s.swipe_active || s.active) ≡ true

step-IsSettled :
    (e : SwipeEvent) (s : SwipeState)
    → undisturbed e s.swipe_active ≡ true
    → IsTouched s
    → IsSettled s
    → IsTouched (swipe_step e s) × IsSettled (swipe_step e s)
unfolding swipe_step on_touch_start translate determine on_touch_move on_touch_end close_actions
step-IsSettled (starts disabled x y) s u t h = ground arith
step-IsSettled (moves x y) s u t h = ground arith
step-IsSettled ends s u t h = ground arith
step-IsSettled closes s u t h = ground arith

run-IsSettled :
    (es : List SwipeEvent) (s : SwipeState)
    → all_undisturbed es s ≡ true
    → IsTouched s
    → IsSettled s
    → IsSettled (swipe es s)
unfolding swipe all_undisturbed
run-IsSettled [] s u t h = h
run-IsSettled (e ∷ es) s u t h =
    let (touched, settled) = step-IsSettled e s (ground arith) t h in
    run-IsSettled es (swipe_step e s) (ground arith) touched settled

-- After any touches of which none starts while the message is being swept, the message is being
-- swept, or it is closed and shows no actions, or it is open by their whole width and shows them.
pub swipe-rests :
    (es : List SwipeEvent) → all_undisturbed es idle_swipe ≡ true → IsSettled (swipe es idle_swipe)
swipe-rests es u = run-IsSettled es idle_swipe u refl refl

-- A second touch that starts while the message is being swept leaves it half open: when the touches
-- end it stays where it was, and its actions stay as they were.
pub half_open :
    (x y : ℕ) (s : SwipeState)
    → let t = on_touch_end (on_touch_start false x y s) in
      (t.reveal ≡ s.reveal) × (t.show_actions ≡ s.show_actions) × (t.active ≡ false)
unfolding on_touch_start on_touch_end
half_open x y s = ground arith
