-- ===== src/ChatApi/Steps.antt =====
-- Everything that can happen to a ChatAPI object, as a list of events.
use token_dance_chat.Base.{ℕ, List, [], ◌∷◌, Option, Text}
use token_dance_chat.Wire.{Fields}
use token_dance_chat.ChatApi.{ReadyState, ChatApi}
use token_dance_chat.ChatApi.Socket.{
  connect, on_open, on_message, on_close, on_error, on_timeout, on_reconnect_timer, send,
  disconnect, on, off,
}

-- Calls by the client, and callbacks with the generation of their socket.
pub data Event : Type 0 where
  connects : Text → Option Text → Event
  sends_data : Fields → Event
  disconnects : Event
  subscribes unsubscribes : Text → ℕ → Event
  socket_opens : ℕ → Text → Option Text → Event
  socket_receives : ℕ → Option Fields → Event
  socket_closes : ℕ → ℕ → ℕ → ℕ → Event
  socket_fails timeout_expires : ℕ → Event
  reconnect_fires : Text → Event

-- One event, with the `readyState` of the sockets at that time.
unfoldable pub step : (ℕ → ReadyState) → Event → ChatApi → ChatApi
step ready (connects username token) s = connect username token s
step ready (sends_data data') s = send ready data' s
step ready disconnects s = disconnect s
step ready (subscribes event h) s = on event h s
step ready (unsubscribes event h) s = off event h s
step ready (socket_opens gen username token) s = on_open ready gen username token s
step ready (socket_receives gen frame) s = on_message ready gen frame s
step ready (socket_closes timer n d gen) s = on_close timer n d gen s
step ready (socket_fails gen) s = on_error gen s
step ready (timeout_expires gen) s = on_timeout gen s
step ready (reconnect_fires username) s = on_reconnect_timer username s

unfoldable pub run : List ((ℕ → ReadyState) × Event) → ChatApi → ChatApi
run [] s = s
run ((ready, e) ∷ es) s = run es (step ready e s)
