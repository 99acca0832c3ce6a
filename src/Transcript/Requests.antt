-- ===== src/Transcript/Requests.antt =====
-- When older messages are asked for, over any run of what can happen to the list.
use token_dance_chat.Base.{
  ℕ, ◌+◌, ◌≡◌, refl, Bool, true, false, not, ◌&&◌, ◌||◌, List, [], ◌∷◌, Option, none, some, Text,
  ◌==◌, arith,
}
use token_dance_chat.Message.{ChatMessage}
use token_dance_chat.Transcript.{View}
use token_dance_chat.Transcript.Paging.{
  Container, first_id, switch_conversation, on_no_more_history, load_request, start_load,
  handle_scroll, on_load_timeout, restore_scroll, retry_request, start_retry, retry_load,
  on_retry_timeout,
}

-- Each event finds the list as it is rendered after the one before.
pub data ViewEvent : Type 0 where
  scrolls : Text → Container → List ChatMessage → Bool → ViewEvent
  times_out retry_times_out ends_history : ViewEvent
  retries : List ChatMessage → Bool → ViewEvent
  lays_out : Container → List ChatMessage → ViewEvent
  switches : Text → ViewEvent

unfoldable pub view_step : ViewEvent → View → View
view_step (scrolls key c messages disabled) v = handle_scroll key c messages disabled v v
view_step times_out v = on_load_timeout v
view_step retry_times_out v = on_retry_timeout v
view_step (retries messages disabled) v = retry_load messages disabled v
view_step ends_history v = on_no_more_history v
view_step (lays_out c messages) v = (restore_scroll c messages v).0
view_step (switches key) v = switch_conversation key v

abbrev pub one_if : Bool → ℕ
one_if true = 1
one_if false = 0

abbrev pub is_request : Option ℕ → ℕ
is_request none = 0
is_request (some before) = 1

-- The requests that an event sends.
unfoldable pub requests_of : ViewEvent → View → ℕ
requests_of (scrolls key c messages disabled) v = is_request (load_request c messages disabled v)
requests_of (retries messages disabled) v = is_request (retry_request messages disabled v)
requests_of e v = 0

-- The event ends the load that is under way: a timeout, the end of the history, another
-- conversation, or a layout in which the first message is another one than when the load began. A
-- load that began before a message without an id is ended by any layout.
abbrev pub ends_load : ViewEvent → View → Bool
ends_load (scrolls key c messages disabled) v = false
ends_load times_out v = true
ends_load retry_times_out v = true
ends_load (retries messages disabled) v = false
ends_load ends_history v = true
ends_load (lays_out c messages) v =
    not (first_id messages == v.first_message_id_before_load)
    || (v.first_message_id_before_load == [])
ends_load (switches key) v = not (v.prev_conversation == key)

-- The requests of a run, and those that came to an end: answered, given up, or left behind.
unfoldable pub requests : List ViewEvent → View → ℕ
requests [] v = 0
requests (e ∷ es) v = requests_of e v + requests es (view_step e v)

unfoldable pub endings : List ViewEvent → View → ℕ
endings [] v = 0
endings (e ∷ es) v = one_if (v.loading_older && ends_load e v) + endings es (view_step e v)

-- The events of one conversation.
abbrev pub stays : Text → ViewEvent → Bool
stays key (switches k) = k == key
stays key _ = true

abbrev pub all_stay : Text → List ViewEvent → Bool
all_stay key [] = true
all_stay key (e ∷ es) = stays key e && all_stay key es

-- Nothing is asked for any more.
abbrev IsExhausted : Text → View → Type 0
IsExhausted key v =
    (v.prev_conversation ≡ key)
    × (v.has_more ≡ false)
    × (v.pagination_error ≡ false)
    × (v.loading_older ≡ false)

step-IsExhausted :
    (key : Text) (e : ViewEvent) (v : View)
    → stays key e ≡ true
    → IsExhausted key v
    → (requests_of e v ≡ 0) × IsExhausted key (view_step e v)
unfolding view_step requests_of handle_scroll load_request start_load on_load_timeout
    on_no_more_history restore_scroll switch_conversation retry_request start_retry retry_load
    on_retry_timeout
step-IsExhausted key (scrolls k c [] disabled) v s p = ground arith
step-IsExhausted key (scrolls k c (m ∷ ms) disabled) v s p = ground arith
step-IsExhausted key times_out v s p = ground arith
step-IsExhausted key retry_times_out v s p = ground arith
step-IsExhausted key (retries [] disabled) v s p = ground arith
step-IsExhausted key (retries (m ∷ ms) disabled) v s p = ground arith
step-IsExhausted key ends_history v s p = ground arith
step-IsExhausted key (lays_out c messages) v s p = ground arith
step-IsExhausted key (switches k) v s p = ground arith

run-IsExhausted :
    (key : Text) (es : List ViewEvent) (v : View)
    → all_stay key es ≡ true
    → IsExhausted key v
    → requests es v ≡ 0
unfolding requests
run-IsExhausted key [] v s p = refl
run-IsExhausted key (e ∷ es) v s p =
    let (none_now, next) = step-IsExhausted key e v (ground arith) p in
    omega (arith, none_now, run-IsExhausted key es (view_step e v) (ground arith) next)

-- Once the end of the history is announced, older messages are never asked for again, whatever
-- happens, until another conversation is opened.
requests-on_no_more_history :
    (es : List ViewEvent) (v : View)
    → all_stay v.prev_conversation es ≡ true
    → requests es (on_no_more_history v) ≡ 0
unfolding on_no_more_history
requests-on_no_more_history es v s =
    run-IsExhausted v.prev_conversation es (on_no_more_history v) s (refl, refl, refl, refl)

-- A load that is tried again by the button is taken for failed even when the older messages arrive:
-- after the layout with whatever messages, the load is still under way, the place on the
-- screen is not kept, and the timeout reports an error. Nothing waits to be restored when the button
-- is pressed, and the list is not empty.
pub retry_load-fails :
    (m : ChatMessage) (ms : List ChatMessage) (c : Container) (later : List ChatMessage) (v : View)
    → v.pagination_error ≡ true
    → v.loading_older ≡ false
    → v.pending_scroll_restore ≡ 0
    → let t = restore_scroll c later (retry_load (m ∷ ms) false v) in
      (t.0.loading_older ≡ true)
      × (t.1 ≡ c.scroll_top)
      × ((on_retry_timeout t.0).pagination_error ≡ true)
unfolding restore_scroll retry_load start_retry on_retry_timeout
retry_load-fails m ms c later v p l z = ground arith
