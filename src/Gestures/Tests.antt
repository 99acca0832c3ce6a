-- ===== src/Gestures/Tests.antt =====
-- The theorems on the gestures at concrete touches.
use token_dance_chat.Base.{◌≤◌, refl, false, List, [], ◌∷◌}
use token_dance_chat.Gestures.Press.{idle_press}
use token_dance_chat.Gestures.PressOnce.{
  TouchEvent, starts, moves, ends, timer_fires, gestures, touches, gestures-idle_press,
}
use token_dance_chat.Gestures.Swipe
use token_dance_chat.Gestures.Swipe.{SwipeEvent, idle_swipe, swipe}
use token_dance_chat.Gestures.SwipeRest.{IsSettled, all_undisturbed, swipe-rests}

-- A long press, and then a swipe.
abbrev pressing : List TouchEvent
pressing =
    starts 100 100 0
    ∷ timer_fires
    ∷ ends 300 100 700
    ∷ starts 100 100 1000
    ∷ moves 200 100
    ∷ ends 300 100 1100
    ∷ []

gestures-idle_press_example : gestures pressing idle_press ≤ touches pressing
gestures-idle_press_example = gestures-idle_press pressing

-- A sweep to the left that shows the actions.
abbrev sweeping : List SwipeEvent
sweeping = Swipe.starts false 300 100 ∷ Swipe.moves 250 100 ∷ Swipe.moves 200 100 ∷ Swipe.ends ∷ []

swipe-rests_example : IsSettled (swipe sweeping idle_swipe)
unfolding all_undisturbed Swipe.swipe_step Swipe.on_touch_start Swipe.on_touch_move Swipe.determine
    Swipe.translate Swipe.clamped Swipe.on_touch_end
swipe-rests_example = swipe-rests sweeping refl
