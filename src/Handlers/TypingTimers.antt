-- ===== src/Handlers/TypingTimers.antt =====
-- The handlers of `typing` and `typing_stop`, with the timers that take a user out of the list of
-- those who are typing ten seconds after the last sign. The map of timers is the list of its keys:
-- each stands for one timer that is pending.
use token_dance_chat.Base.{
  ◌≡◌, refl, ap, Bool, true, false, not, ◌&&◌, ◌||◌, List, [], ◌∷◌, Option, none, some, Text, ◌==◌,
  ==_refl, includes, arith, if◌then◌else◌,
}
use token_dance_chat.Store.{ChatState}
use token_dance_chat.Store.Lists.{add_name, remove_name, includes-add_name, includes-remove_name}
use token_dance_chat.Store.People.{add_typing_user, remove_typing_user}
use token_dance_chat.Handlers.Frames.{public_key}

pub record Typing : Type 0 where
  pub store : ChatState
  pub timers : List Text

-- A context that is absent or empty counts as the public one.
unfoldable pub is_elsewhere : Option Text → Bool
is_elsewhere none = false
is_elsewhere (some context) = not (context == []) && not (context == public_key)

-- A timer that is there already is replaced.
unfoldable pub on_typing : Text → Option Text → Typing → Typing
on_typing username context s =
    if is_elsewhere context
    then s
    else record { store = add_typing_user username s.store; timers = add_name username s.timers }

unfoldable pub on_typing_stop : Text → Typing → Typing
on_typing_stop username s = record {
  store = remove_typing_user username s.store;
  timers = remove_name username s.timers;
}

-- The callback of a timer.
unfoldable pub on_typing_timer : Text → Typing → Typing
on_typing_timer username s = record {
  store = remove_typing_user username s.store;
  timers = remove_name username s.timers;
}

-- The cleanup clears the timers.
unfoldable pub clear_timers : Typing → Typing
clear_timers s = record s { timers = [] }

-- Signs of typing, timers, and messages, which take their author out of the list.
pub data TypingEvent : Type 0 where
  types : Text → Option Text → TypingEvent
  stops runs_out writes : Text → TypingEvent

unfoldable pub typing_step : TypingEvent → Typing → Typing
typing_step (types username context) s = on_typing username context s
typing_step (stops username) s = on_typing_stop username s
typing_step (runs_out username) s = on_typing_timer username s
typing_step (writes username) s = record s { store = remove_typing_user username s.store }

unfoldable pub run_typing : List TypingEvent → Typing → Typing
run_typing [] s = s
run_typing (e ∷ es) s = run_typing es (typing_step e s)

-- The timers run out.
unfoldable pub run_out : List Text → Typing → Typing
run_out [] s = s
run_out (u ∷ us) s = run_out us (on_typing_timer u s)

-- Whoever is typing has a timer.
abbrev pub IsTimed : Typing → Type 0
IsTimed s = (z : Text) → (not (includes s.store.typing_users z) || includes s.timers z) ≡ true

step-IsTimed : (e : TypingEvent) (s : Typing) → IsTimed s → IsTimed (typing_step e s)
unfolding typing_step on_typing on_typing_stop on_typing_timer add_typing_user remove_typing_user
step-IsTimed (types u context) s h z =
    let users = s.store.typing_users in
    ground (arith, h z, includes-add_name u z users, includes-add_name u z s.timers)
step-IsTimed (stops u) s h z =
    let users = s.store.typing_users in
    ground (arith, h z, includes-remove_name u z users, includes-remove_name u z s.timers)
step-IsTimed (runs_out u) s h z =
    let users = s.store.typing_users in
    ground (arith, h z, includes-remove_name u z users, includes-remove_name u z s.timers)
step-IsTimed (writes u) s h z =
    let users = s.store.typing_users in ground (arith, h z, includes-remove_name u z users)

run-IsTimed : (es : List TypingEvent) (s : Typing) → IsTimed s → IsTimed (run_typing es s)
unfolding run_typing
run-IsTimed [] s h = h
run-IsTimed (e ∷ es) s h = run-IsTimed es (typing_step e s) (step-IsTimed e s h)

-- Who is typing after the timers have run out: those who have none.
run_out-includes :
    (us : List Text) (s : Typing) (z : Text)
    → includes (run_out us s).store.typing_users z
      ≡ (includes s.store.typing_users z && not (includes us z))
unfolding run_out on_typing_timer remove_typing_user includes
run_out-includes [] s z = ground arith
run_out-includes (u ∷ us) s z =
    let rest = run_out-includes us (on_typing_timer u s) z in
    ground (arith, rest, includes-remove_name u z s.store.typing_users)

nobody : (xs : List Text) → ((z : Text) → includes xs z ≡ false) → xs ≡ []
unfolding includes
nobody [] h = refl
nobody (x ∷ xs) h = absurd (ground (arith, h x, ==_refl x))

-- Nobody is shown as typing for ever: after any signs of typing, messages and timers, from a state
-- in which nobody is typing, the list is empty as soon as the timers that are then pending have run
-- out, whether or not anyone ever says that they stopped.
pub run_typing-run_out :
    (es : List TypingEvent) (s : Typing)
    → s.store.typing_users ≡ []
    → let t = run_typing es s in (run_out t.timers t).store.typing_users ≡ []
unfolding includes
run_typing-run_out es s e =
    let t = run_typing es s in
    let start : IsTimed s = λ z. ap (λ xs. not (includes xs z) || includes s.timers z) e in
    nobody (run_out t.timers t).store.typing_users (λ z.
      let timed = run-IsTimed es s start z in ground (arith, timed, run_out-includes t.timers t z))
