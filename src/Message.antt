-- ===== src/Message.antt =====
-- frontend/src/lib/api.ts: the data that the server and the client exchange. `?` fields are
-- options; timestamps are whole milliseconds.
use token_dance_chat.Base.{ℕ, Bool, List, Option, none, Text, Dict}

pub record PollData : Type 0 where
  pub id : Text
  pub room_id : Text
  pub creator : Text
  pub question : Text
  pub options : List Text
  pub multiple_choice : Bool
  pub is_anonymous : Bool
  pub is_closed : Bool
  pub votes : List (ℕ × ℕ)
  pub voters : List (ℕ × List Text)
  pub created_at : ℕ

pub record ChatMessage : Type 0 where
  pub id : Text
  pub client_message_id : Option Text
  pub username : Text
  pub content : Text
  pub timestamp : ℕ
  pub room_id : Option Text
  pub edited : Option Bool
  pub reactions : Option (Dict (List Text))
  pub reply_to_id : Option Text
  pub reply_to_content : Option Text
  pub reply_to_user : Option Text
  pub deleted : Option Bool
  pub to : Option Text
  pub from : Option Text
  pub group : Option Text
  pub read_by : Option (List Text)
  pub subtype : Option Text
  pub poll : Option PollData
  pub thread_id : Option Text
  pub mention_all : Option Bool
  pub dedupe_key : Option Text

pub record UserStatus : Type 0 where
  pub username : Text
  pub online : Bool
  pub last_seen : ℕ
  pub display_name : Option Text
  pub avatar_url : Option Text
  pub status : Option Text

pub record CustomEmoji : Type 0 where
  pub id : Text
  pub name : Text
  pub url : Text
  pub uploader : Text
  pub room_id : Text
  pub created_at : ℕ

-- An object literal that gives the four required fields; the optional ones are absent.
abbrev pub chat_message : Text → Text → Text → ℕ → ChatMessage
chat_message id username content timestamp = record {
  id = id;
  client_message_id = none;
  username = username;
  content = content;
  timestamp = timestamp;
  room_id = none;
  edited = none;
  reactions = none;
  reply_to_id = none;
  reply_to_content = none;
  reply_to_user = none;
  deleted = none;
  to = none;
  from = none;
  group = none;
  read_by = none;
  subtype = none;
  poll = none;
  thread_id = none;
  mention_all = none;
  dedupe_key = none;
}
