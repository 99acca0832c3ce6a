-- ===== src/Store/Unread.antt =====
-- The unread counts of the conversations.
use token_dance_chat.Base.{
  ℕ, ◌+◌, ◌≡◌, Bool, List, [], ◌∷◌, Text, ◌==◌, lookup-insert, lookup-erase, arith, if◌then◌else◌,
}
use token_dance_chat.Store.{ChatState}
use token_dance_chat.Store.Conversations.{
  touch, unread, increment_conversation_unread, clear_conversation_unread, mark_conversation_read,
}

-- A message arrived for each of the conversations, in turn.
unfoldable pub increment_all : List Text → ChatState → ChatState
increment_all [] s = s
increment_all (key ∷ keys) s = increment_all keys (increment_conversation_unread key s)

unfoldable pub count : Text → List Text → ℕ
count key [] = 0
count key (k ∷ keys) = if k == key then count key keys + 1 else count key keys

unread-increment :
    (key k : Text) (s : ChatState)
    → unread k (increment_conversation_unread key s)
      ≡ (if key == k then unread key s + 1 else unread k s)
unfolding unread increment_conversation_unread
unread-increment key k s =
    ground (arith, lookup-insert key k (unread key s + 1) s.unread_by_conversation)

-- The count of each conversation goes up by the number of messages that arrived for it.
pub unread-increment_all :
    (keys : List Text) (key : Text) (s : ChatState)
    → unread key (increment_all keys s) ≡ unread key s + count key keys
unfolding increment_all count
unread-increment_all [] key s = ground arith
unread-increment_all (k ∷ keys) key s = ground (
  arith,
  unread-increment k key s,
  unread-increment_all keys key (increment_conversation_unread k s),
)

-- Clearing the count of a conversation and marking the conversation as read leave the same
-- counts: 0 for that conversation and, for every other, the count before.
pub unread-clear :
    (key k : Text) (now : ℕ) (storage_ok : Bool) (s : ChatState)
    → (unread k (clear_conversation_unread key now storage_ok s)
        ≡ (if key == k then 0 else unread k s))
      × (unread k (mark_conversation_read key now storage_ok s)
          ≡ (if key == k then 0 else unread k s))
unfolding unread clear_conversation_unread mark_conversation_read touch
unread-clear key k now storage_ok s = (
  ground (arith, lookup-erase key k s.unread_by_conversation),
  ground (arith, lookup-erase key k s.unread_by_conversation),
)
