-- ===== src/Transcript/Groups.antt =====
-- `buildMessageGroups`: consecutive messages of one user within two minutes form a group.
use mathlib.Core.Option.{get_or}
use token_dance_chat.Base.{
  ℕ, ◌-◌, Bool, false, not, ◌&&◌, List, [], ◌∷◌, ◌++◌, Option, none, some, Text, ◌==◌, ltb,
  if◌then◌else◌,
}
use token_dance_chat.Message.{ChatMessage}
use token_dance_chat.Store.Messages.{system, last_message}

abbrev pub group_window_ms : ℕ
group_window_ms = 120000

pub data MessageGroup : Type 0 where
  user_group : Text → Bool → List ChatMessage → MessageGroup
  system_group : ChatMessage → MessageGroup

-- `msg.timestamp - last.timestamp < GROUP_WINDOW_MS`; a difference below 0 is below the window too.
abbrev pub is_recent : Option ChatMessage → ChatMessage → Bool
is_recent none msg = false
is_recent (some last) msg = ltb (msg.timestamp - last.timestamp) group_window_ms

-- The condition under which the last group takes the message.
unfoldable pub takes : MessageGroup → ChatMessage → Bool
takes (system_group m) msg = false
takes (user_group name own ms) msg =
    (name == msg.username) && not (get_or msg.deleted false) && is_recent (last_message ms) msg

abbrev pub push_to : ChatMessage → MessageGroup → MessageGroup
push_to msg (system_group m) = system_group m
push_to msg (user_group name own ms) = user_group name own (ms ++ msg ∷ [])

abbrev pub fresh_group : Text → ChatMessage → MessageGroup
fresh_group current_username msg =
    user_group msg.username (msg.username == current_username) (msg ∷ [])

-- `last.messages.push(msg)` or `groups.push(...)`, by the last of the groups.
unfoldable pub add_user_message : Text → ChatMessage → List MessageGroup → List MessageGroup
add_user_message current_username msg [] = fresh_group current_username msg ∷ []
add_user_message current_username msg (g ∷ []) =
    if takes g msg then push_to msg g ∷ [] else g ∷ fresh_group current_username msg ∷ []
add_user_message current_username msg (g ∷ g' ∷ gs) =
    g ∷ add_user_message current_username msg (g' ∷ gs)

-- One round of the loop.
unfoldable pub group_one : Text → List MessageGroup → ChatMessage → List MessageGroup
group_one current_username groups msg =
    if msg.username == system
    then groups ++ system_group msg ∷ []
    else add_user_message current_username msg groups

unfoldable pub group_all : Text → List MessageGroup → List ChatMessage → List MessageGroup
group_all current_username groups [] = groups
group_all current_username groups (msg ∷ msgs) =
    group_all current_username (group_one current_username groups msg) msgs

unfoldable pub build_message_groups : List ChatMessage → Text → List MessageGroup
build_message_groups messages current_username = group_all current_username [] messages
