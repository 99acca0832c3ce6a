-- ===== src/Handlers/Stream.antt =====
-- The handler of "stream" frames: chunks of a bot's answer are gathered, and shown in a placeholder
-- message that is refreshed at most every 80 ms and removed at the end. `Date.now()` is an
-- argument, the same for the whole handler.
use token_dance_chat.Base.{
  ℕ, ◌-◌, Bool, true, false, ◌||◌, List, [], ◌∷◌, ◌++◌, map, Option, none, some, Text, Dict, lit,
  ◌==◌, lookup, insert, erase, includes, ltb, if◌then◌else◌,
}
use mathlib.Core.Option.{get_or}
use token_dance_chat.Message.{ChatMessage, chat_message}
use token_dance_chat.Merge.{ids}
use token_dance_chat.Store.{ChatState}
use token_dance_chat.Store.Messages.{add_message, add_private_bot_message, without_id}
use token_dance_chat.Store.People.{remove_typing_user}

pub record StreamEvent : Type 0 where
  pub username : Text
  pub content : Option Text
  pub done : Bool
  pub is_private : Bool

pub record StreamAcc : Type 0 where
  pub content : Text
  pub last_flush : ℕ

-- The store and the hook's `streamAcc`.
pub record StreamState : Type 0 where
  pub chat : ChatState
  pub stream_acc : Dict StreamAcc

abbrev pub stream_id : Text → Text
stream_id username = lit "stream-" ++ username

-- The list of messages that a stream writes to.
unfoldable pub window_of : Bool → ChatState → List ChatMessage
window_of true s = s.private_bot_messages
window_of false s = s.messages

unfoldable pub set_messages : Bool → List ChatMessage → ChatState → ChatState
set_messages true ms s = record s { private_bot_messages = ms }
set_messages false ms s = record s { messages = ms }

-- `filter((m) => m.id !== streamId)`
unfoldable pub drop_placeholder : Bool → Text → ChatState → ChatState
drop_placeholder is_private id s =
    set_messages is_private (without_id id (window_of is_private s)) s

-- A new stream clears what is left of an old one and starts with an empty text.
unfoldable pub opened_as : Option StreamAcc → StreamEvent → ChatState → StreamAcc × ChatState
opened_as (some acc) e s = (acc, s)
opened_as none e s = (
  record { content = []; last_flush = 0 },
  if includes (ids (window_of e.is_private s)) (stream_id e.username)
      then drop_placeholder e.is_private (stream_id e.username) s
      else s,
)

unfoldable pub open_stream : StreamEvent → StreamState → StreamAcc × ChatState
open_stream e s = opened_as (lookup (stream_id e.username) s.stream_acc) e s.chat

unfoldable pub show_text : Text → Text → ChatMessage → ChatMessage
show_text id text m = if m.id == id then record m { content = text } else m

-- The placeholder shows the text, and is added where it is not there and the text is not empty.
unfoldable pub show : StreamEvent → Text → ℕ → ChatState → ChatState
show e text now s =
    let id = stream_id e.username in
    let placeholder = chat_message id e.username text now in
    if includes (ids (window_of e.is_private s)) id
    then set_messages e.is_private (map (show_text id text) (window_of e.is_private s)) s
    else if text == []
    then s
    else if e.is_private
    then add_private_bot_message placeholder s
    else add_message placeholder s

unfoldable pub end_stream : StreamEvent → StreamState → StreamState
end_stream e s = record {
  chat =
      drop_placeholder e.is_private (stream_id e.username) (remove_typing_user e.username s.chat);
  stream_acc = erase (stream_id e.username) s.stream_acc;
}

-- The part under `if (done || now - acc.lastFlush > 80)`, with the gathered text.
unfoldable pub flush : StreamEvent → Text → ℕ → StreamState → StreamState
flush e text now s =
    let shown : StreamState = record {
      chat = show e text now s.chat;
      stream_acc =
          insert (stream_id e.username) (record { content = text; last_flush = now }) s.stream_acc;
    } in
    if e.done then end_stream e shown else shown

-- The frame once its stream is open: the text grows and is shown when it is time.
unfoldable pub gather : StreamEvent → ℕ → StreamAcc → StreamState → StreamState
gather e now acc s =
    let text = acc.content ++ get_or e.content [] in
    if e.done || ltb 80 (now - acc.last_flush) then flush e text now s else record s {
      stream_acc =
          insert (stream_id e.username) (record { content = text; last_flush = acc.last_flush })
            s.stream_acc;
    }

unfoldable pub on_stream : ℕ → StreamEvent → StreamState → StreamState
on_stream now e s =
    let opened = open_stream e s in
    if (e.username == []) || (e.username == s.chat.username)
    then s
    else gather e now opened.0 (record s { chat = opened.1 })

-- The interval of a minute: accumulators that were not shown for more than two minutes go.
unfoldable pub clean_accs : ℕ → Dict StreamAcc → Dict StreamAcc
clean_accs now [] = []
clean_accs now ((id, acc) ∷ d) =
    let rest = clean_accs now d in
    if ltb 120000 (now - acc.last_flush) then rest else (id, acc) ∷ rest

unfoldable pub on_cleanup : ℕ → StreamState → StreamState
on_cleanup now s = record s { stream_acc = clean_accs now s.stream_acc }
