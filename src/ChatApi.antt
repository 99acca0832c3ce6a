-- ===== src/ChatApi.antt =====
-- frontend/src/lib/api.ts, class ChatAPI: one WebSocket, its join handshake, the reconnection and
-- the queue of messages that wait for a connection.
--
-- A method or a callback of the socket is a function on the object's fields. Calls out of the
-- class (the socket, timers, the join promise, registered handlers) are entries of `trace`, newest
-- first. The browser decides what `readyState` a socket has, the id of a timer and the random
-- number: these are arguments. A socket and a join promise are named by the generation of the
-- `connect` that made them.
pub mod Backoff
pub mod Socket
pub mod Steps
pub mod Keeps
pub mod Queue
pub mod Promises
pub mod Reconnect
pub mod Delivery
pub mod Losses
pub mod Commands
pub mod Sending
mod Tests
use token_dance_chat.Base.{
  ℕ, zero, suc, ◌+◌, Bool, true, false, not, ◌&&◌, ◌||◌, List, [], ◌∷◌, ◌++◌, Option, none, some,
  Text, Dict, lit, ◌==◌, length, lookup, insert, ltb, leb, eqb, if◌then◌else◌,
}
use token_dance_chat.Wire.{Json, Fields}

pub data ReadyState : Type 0 where
  connecting open_state closing closed_state : ReadyState

-- Why a join promise is rejected: the four errors of the class, and what the server said.
pub data Reason : Type 0 where
  timed_out connection_closed cannot_connect kicked_by_login : Reason
  server_error : Option Json → Reason

pub data Effect : Type 0 where
  opens closes : ℕ → Effect
  sends : ℕ → Fields → Effect
  starts_timeout clears_timeout : ℕ → Effect
  resolves : ℕ → Effect
  rejects : ℕ → Reason → Effect
  calls : ℕ → Fields → Effect
  starts_reconnect : ℕ → ℕ → Text → Effect
  clears_reconnect : ℕ → Effect
  warns : Effect

pub record ChatApi : Type 0 where
  pub ws : Option ℕ
  pub handlers : Dict (List ℕ)
  pub reconnect_timer : Option ℕ
  pub reconnect_attempt : ℕ
  pub reconnect_username : Option Text
  pub reconnect_token : Option Text
  pub was_reconnecting : Bool
  pub connect_generation : ℕ
  pub outbound_queue : List Fields
  pub pending_join : Option ℕ
  pub trace : List Effect

abbrev pub max_reconnect_attempts : ℕ
max_reconnect_attempts = 10

abbrev pub max_queue : ℕ
max_queue = 100

unfoldable pub init : ChatApi
init = record {
  ws = none;
  handlers = [];
  reconnect_timer = none;
  reconnect_attempt = 0;
  reconnect_username = none;
  reconnect_token = none;
  was_reconnecting = false;
  connect_generation = 0;
  outbound_queue = [];
  pending_join = none;
  trace = [];
}

abbrev pub emit : Effect → ChatApi → ChatApi
emit e s = record s { trace = e ∷ s.trace }

abbrev pub is_some {ℓ} : {A : Type ℓ} → Option A → Bool
is_some none = false
is_some (some _) = true
