-- ===== src/Store/Blocked.antt =====
-- Blocked users.
use token_dance_chat.Base.{
  ◌≡◌, refl, true, false, Text, ◌==◌, ==_refl, includes, arith, if◌then◌else◌,
}
use token_dance_chat.Message.{ChatMessage}
use token_dance_chat.Store.{ChatState}
use token_dance_chat.Store.Lists.{includes-add_name, includes-remove_name}
use token_dance_chat.Store.Messages.{add_message}
use token_dance_chat.Store.People.{add_blocked_user, remove_blocked_user}

blocked : (x : Text) (s : ChatState) → includes (add_blocked_user x s).blocked_users x ≡ true
unfolding add_blocked_user
blocked x s = ground (arith, includes-add_name x x s.blocked_users, ==_refl x)

-- A message of a user who has just been blocked changes nothing, and blocking and then unblocking
-- a user leaves every other user as before and that one not blocked.
pub add_message-blocked :
    (m : ChatMessage) (name : Text) (s : ChatState)
    → (add_message m (add_blocked_user m.username s) ≡ add_blocked_user m.username s)
      × (includes
            (remove_blocked_user m.username (add_blocked_user m.username s)).blocked_users
            name
          ≡ (if m.username == name then false else includes s.blocked_users name))
unfolding add_message remove_blocked_user
add_message-blocked m name s = (
  rw (blocked m.username s) refl,
  unfold add_blocked_user in
      ground (
        arith,
        includes-remove_name m.username name (add_blocked_user m.username s).blocked_users,
        includes-add_name m.username name s.blocked_users,
      ),
)
