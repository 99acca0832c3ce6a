-- ===== src/Handlers/Tests.antt =====
-- The theorems on the handlers at concrete states.
use token_dance_chat.Base.{◌≡◌, refl, true, false, List, [], ◌∷◌, ◌++◌, some, Text, lit, text_dec}
use token_dance_chat.Message.{ChatMessage, chat_message}
use token_dance_chat.Store.{ChatState, initial}
use token_dance_chat.Handlers.Stream.{StreamEvent, StreamState, stream_id, on_stream}
use token_dance_chat.Handlers.Placeholder.{IsEnded, on_stream-IsEnded}
use token_dance_chat.Handlers.Accumulate.{
  StreamMoment, arrives, cleans, gathered, on_chunks, joined_text, on_chunks-gathered,
}
use token_dance_chat.Base.{Bool, none, lookup, arith}
use token_dance_chat.Handlers.Frames.{ChatFrame}
use token_dance_chat.Store.SystemLines.{Line}
use token_dance_chat.Handlers.TypingTimers
use token_dance_chat.Handlers.TypingTimers.{
  Typing, TypingEvent, run_typing, run_out, run_typing-run_out,
}
use token_dance_chat.Handlers.Session.{
  unshared, run_shared, at_most_one, mounted, run_shared-registrations,
}

abbrev bot : Text
bot = lit "TokenBot"

-- Alice is signed in, and the bot's placeholder is on screen.
abbrev streaming : StreamState
streaming = record {
  chat = record (initial []) {
    username = lit "alice";
    messages = chat_message (stream_id bot) bot (lit "Hel") 1000 ∷ [];
    typing_users = bot ∷ [];
  };
  stream_acc = (stream_id bot, record { content = lit "Hel"; last_flush = 1000 }) ∷ [];
}

abbrev last_frame : StreamEvent
last_frame = record { username = bot; content = some (lit "lo"); done = true; is_private = false }

on_stream-IsEnded_example : IsEnded last_frame (on_stream 1040 last_frame streaming)
unfolding text_dec
on_stream-IsEnded_example = on_stream-IsEnded 1040 last_frame streaming refl refl refl

abbrev chunks : List StreamMoment
chunks = arrives 1020 (lit "l") ∷ cleans 60000 ∷ arrives 1200 (lit "o") ∷ []

on_chunks-gathered_example :
    gathered bot (on_chunks bot false chunks streaming)
    ≡ gathered bot streaming ++ joined_text chunks
unfolding text_dec lookup
on_chunks-gathered_example =
    on_chunks-gathered bot false chunks (some 1000) streaming refl refl (omega arith)
      (omega arith, tt)

-- Alice is signed in and has blocked Bob.
abbrev blocking : ChatState
blocking = record (initial []) { username = lit "alice"; blocked_users = lit "bob" ∷ [] }

abbrev of_bob : ChatFrame
of_bob = record {
  id = lit "7";
  client_message_id = none;
  username = lit "bob";
  content = lit "hi";
  timestamp = 5000;
  reply_to_id = none;
  reply_to_content = none;
  reply_to_user = none;
  is_private = false;
}

abbrev lost : ChatMessage
lost = record (chat_message (lit "sys-1") (lit "system") (lit "Reconnecting (1)") 2000) {
  dedupe_key = some (lit "reconnect");
}

abbrev flapping : ChatState
flapping = record blocking { messages = lost ∷ [] }

abbrev flaps : List (Bool × Line)
flaps =
    (true, record { id = lit "sys-2"; content = lit "Reconnected"; timestamp = 2500 })
    ∷ (false, record { id = lit "sys-3"; content = lit "Reconnecting (1)"; timestamp = 2600 })
    ∷ []

-- Bob types, and never says that he stopped.
abbrev typing_signs : List TypingEvent
typing_signs =
    TypingTimers.types (lit "bob") none
    ∷ TypingTimers.types (lit "eve") (some (lit "public"))
    ∷ TypingTimers.stops (lit "eve")
    ∷ []

abbrev silent : Typing
silent = record { store = initial []; timers = [] }

run_typing-run_out_example :
    let t = run_typing typing_signs silent in (run_out t.timers t).store.typing_users ≡ []
unfolding initial
run_typing-run_out_example = run_typing-run_out typing_signs silent refl

abbrev mounts : List Bool
mounts = true ∷ true ∷ false ∷ true ∷ []

run_shared-registrations_example :
    (run_shared mounts unshared).registrations ≡ at_most_one (mounted mounts 0)
run_shared-registrations_example = run_shared-registrations mounts
