-- ===== src/ChatApi/Tests.antt =====
-- The theorems on ChatAPI at concrete connections.
use token_dance_chat.Base.{
  ℕ, ◌+◌, ◌≤◌, ◌≡◌, refl, false, List, [], ◌∷◌, ◌++◌, none, some, Text, lit, arith, text_dec,
}
use token_dance_chat.Wire.{Fields, end, message, is_type, get, type_of}
use token_dance_chat.ChatApi.{ReadyState, open_state, closed_state, ChatApi, init}
use token_dance_chat.ChatApi.Socket.{
  is_open, send, disconnect, join_done, on_open, on_message, on_close, on_error, on_timeout,
  on_reconnect_timer,
}
use token_dance_chat.ChatApi.Steps.{Event, connects, sends_data, socket_opens, socket_receives, run}
use token_dance_chat.ChatApi.Keeps.{settled}
use token_dance_chat.ChatApi.Queue.{IsQueue, run-init-IsQueue}
use token_dance_chat.ChatApi.Promises.{run-settles_once}
use token_dance_chat.ChatApi.Reconnect.{clearing, closing, disconnect_final}
use token_dance_chat.ChatApi.Delivery.{sent, join_done_delivers}
use token_dance_chat.ChatApi.Losses.{reconnect_loses_queue, refused_cycle, refused_join_repeats}
use token_dance_chat.ChatApi.Commands.{Command, send_load_history, send_block_list, perform_all}
use token_dance_chat.ChatApi.Sending.{frames, perform_all-delivered}

abbrev ready_open : ℕ → ReadyState
ready_open h = open_state

abbrev ready_closed : ℕ → ReadyState
ready_closed h = closed_state

abbrev alice : Text
alice = lit "alice"

abbrev text_frame : Fields
text_frame = message (lit "message") end

abbrev error_frame : Fields
error_frame = message (lit "error") end

abbrev kicked_frame : Fields
kicked_frame = message (lit "kicked") end

abbrev history_frame : Fields
history_frame = message (lit "history") end

-- The join of the first socket is pending, and one message waits.
abbrev joining : ChatApi
joining = record {
  ws = some 1;
  handlers = [];
  reconnect_timer = none;
  reconnect_attempt = 0;
  reconnect_username = some alice;
  reconnect_token = none;
  was_reconnecting = false;
  connect_generation = 1;
  outbound_queue = text_frame ∷ [];
  pending_join = some 1;
  trace = [];
}

-- The join is done.
abbrev online : ChatApi
online = record joining { outbound_queue = []; pending_join = none }

abbrev session : List ((ℕ → ReadyState) × Event)
session =
    (ready_closed, connects alice none)
    ∷ (ready_closed, sends_data text_frame)
    ∷ (ready_open, socket_opens 1 alice none)
    ∷ []

run-init-IsQueue_example : IsQueue (run session init).outbound_queue
run-init-IsQueue_example = run-init-IsQueue session

run-settles_once_example :
    settled 1
      (run (session ++ (ready_open, socket_receives 1 (some history_frame)) ∷ []) init).trace
    ≤ 1
run-settles_once_example =
    run-settles_once 1 (session ++ (ready_open, socket_receives 1 (some history_frame)) ∷ [])

disconnect_final_example :
    ((disconnect online).ws ≡ none)
    × ((disconnect online).outbound_queue ≡ [])
    × ((disconnect online).pending_join ≡ none)
    × ((disconnect online).reconnect_timer ≡ none)
    × ((disconnect online).reconnect_username ≡ none)
    × ((disconnect online).trace
        ≡ closing online.ws ++ (clearing online.reconnect_timer ++ online.trace))
    × (on_open ready_open 1 alice none (disconnect online) ≡ disconnect online)
    × (on_message ready_open 1 (some text_frame) (disconnect online) ≡ disconnect online)
    × (on_close 7 1 2 1 (disconnect online) ≡ disconnect online)
    × (on_error 1 (disconnect online) ≡ disconnect online)
    × (on_timeout 1 (disconnect online) ≡ disconnect online)
disconnect_final_example =
    disconnect_final ready_open 1 7 1 2 alice none (some text_frame) online (omega arith)

join_done_delivers_example :
    (sent (join_done ready_open 1 1 joining).trace ≡ sent [] ++ text_frame ∷ [])
    × ((join_done ready_open 1 1 joining).outbound_queue ≡ [])
    × ((join_done ready_open 1 1 joining).pending_join ≡ none)
    × (settled 1 (join_done ready_open 1 1 joining).trace ≡ settled 1 [] + 1)
unfolding is_open
join_done_delivers_example = join_done_delivers ready_open 1 1 joining refl

reconnect_loses_queue_example :
    ((on_reconnect_timer alice (send ready_closed text_frame online)).outbound_queue ≡ [])
    × (sent (on_reconnect_timer alice (send ready_closed text_frame online)).trace ≡ sent [])
unfolding is_open is_type text_dec get type_of
reconnect_loses_queue_example = reconnect_loses_queue ready_closed alice text_frame online refl refl

refused_join_repeats_example :
    ((refused_cycle ready_open 7 1 2 alice error_frame online).reconnect_timer ≡ some 7)
    × ((refused_cycle ready_open 7 1 2 alice error_frame online).reconnect_attempt ≡ 0)
    × ((refused_cycle ready_open 7 1 2 alice error_frame online).connect_generation ≡ 2)
unfolding is_type text_dec get type_of
refused_join_repeats_example =
    refused_join_repeats ready_open 7 1 2 97 (lit "lice") error_frame online refl

abbrev commands : List ((ℕ → ReadyState) × Command)
commands = (ready_open, send_load_history 5000) ∷ (ready_closed, send_block_list) ∷ []

perform_all-delivered_example :
    sent (join_done ready_open 1 1 (perform_all commands joining)).trace
    ≡ sent [] ++ ((text_frame ∷ []) ++ frames commands)
unfolding is_open
perform_all-delivered_example =
    perform_all-delivered ready_open 1 1 commands joining refl (omega arith) refl
