-- ===== src/Store/Tests.antt =====
-- The theorems on the store at concrete states.
use token_dance_chat.Base.{
  ◌≡◌, refl, true, false, List, [], ◌∷◌, some, Text, lit, ◌==◌, text_dec, includes, erase,
  if◌then◌else◌,
}
use token_dance_chat.Message.{ChatMessage, chat_message}
use token_dance_chat.Store.{ChatState, initial, last_read_key}
use token_dance_chat.Store.Messages.{add_message}
use token_dance_chat.Store.Conversations.{mark_conversation_read}
use token_dance_chat.Store.People.{set_username, reset, add_blocked_user, remove_blocked_user}
use token_dance_chat.Store.Actions.{Action, apply_all}
use token_dance_chat.Store.Actions
use token_dance_chat.Store.Bounds.{IsBounded}
use token_dance_chat.Store.Runs.{apply_all-initial-IsBounded}
use token_dance_chat.Store.SystemLines.{Line}
use token_dance_chat.Store.Session.{reload_read_times, reset_lem}
use token_dance_chat.Store.Blocked.{add_message-blocked}

abbrev alice : Text
alice = lit "alice"

abbrev hello : ChatMessage
hello = chat_message (lit "1") alice (lit "hello") 1000

abbrev lost_line : ChatMessage
lost_line = record (chat_message (lit "sys-1") (lit "system") (lit "Reconnecting (1)") 2000) {
  dedupe_key = some (lit "reconnect");
}

-- Alice is signed in; her message and a line of the system are on screen.
abbrev signed_in : ChatState
signed_in = record (initial []) { username = alice; messages = hello ∷ lost_line ∷ [] }

abbrev lines : List Line
lines = record { id = lit "sys-3"; content = lit "Reconnected"; timestamp = 3000 } ∷ []

abbrev again : Line
again = record { id = lit "sys-2"; content = lit "Reconnecting (2)"; timestamp = 2500 }

apply_all-initial-IsBounded_example :
    IsBounded (apply_all (Actions.add_message hello ∷ Actions.reset ∷ []) (initial []))
apply_all-initial-IsBounded_example =
    apply_all-initial-IsBounded [] (Actions.add_message hello ∷ Actions.reset ∷ [])

reload_read_times_example :
    (set_username alice (
      initial
        (mark_conversation_read
          (lit "public")
          9
          true
          signed_in).local_storage)).last_read_timestamps
    ≡ (mark_conversation_read (lit "public") 9 true signed_in).last_read_timestamps
reload_read_times_example = reload_read_times (lit "public") 9 signed_in

reset_lem_example :
    reset signed_in ≡ record (initial (erase (last_read_key alice) signed_in.local_storage)) {
      last_read_timestamps = [];
      private_bot_messages = signed_in.private_bot_messages;
      revision_counter = signed_in.revision_counter;
      no_more_history_events = signed_in.no_more_history_events;
    }
unfolding text_dec
reset_lem_example = reset_lem signed_in refl

add_message-blocked_example :
    (add_message hello (add_blocked_user alice signed_in) ≡ add_blocked_user alice signed_in)
    × (includes
          (remove_blocked_user alice (add_blocked_user alice signed_in)).blocked_users
          (lit "bob")
        ≡ (if alice == lit "bob" then false else includes signed_in.blocked_users (lit "bob")))
add_message-blocked_example = add_message-blocked hello (lit "bob") signed_in
