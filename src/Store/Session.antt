-- ===== src/Store/Session.antt =====
-- What a session of a user leaves behind: the read times in localStorage, and `reset`.
use token_dance_chat.Base.{
  ℕ, ◌≡◌, refl, ap, true, false, [], Text, ◌==◌, ==_refl, insert, erase, lookup-insert,
  if◌then◌else◌,
}
use token_dance_chat.Store.{ChatState, initial, last_read_key, load_last_read_timestamps}
use token_dance_chat.Store.Conversations.{touch, mark_conversation_read}
use token_dance_chat.Store.People.{set_username, reset_fields, reset}

-- The read times survive a reload: when the write succeeds, a page that loads with the storage
-- then left, and in which the same user signs in, has the read times of the page before it.
pub reload_read_times :
    (key : Text) (now : ℕ) (s : ChatState)
    → let read = mark_conversation_read key now true s in
      (set_username s.username (initial read.local_storage)).last_read_timestamps
      ≡ read.last_read_timestamps
unfolding set_username initial load_last_read_timestamps mark_conversation_read touch
reload_read_times key now s =
    let stored =
      lookup-insert (last_read_key s.username) (last_read_key s.username)
        (insert key now s.last_read_timestamps) s.local_storage in
    rw (stored, ==_refl (last_read_key s.username)) refl

-- With a user signed in, `reset` leaves the store of a page that has just loaded with the user's
-- read times removed from the storage, except that the read times are empty and that the private
-- messages, the revision counter and the number of events fired are still there.
pub reset_lem :
    (s : ChatState)
    → (s.username == []) ≡ false
    → reset s ≡ record (initial (erase (last_read_key s.username) s.local_storage)) {
      last_read_timestamps = [];
      private_bot_messages = s.private_bot_messages;
      revision_counter = s.revision_counter;
      no_more_history_events = s.no_more_history_events;
    }
unfolding reset reset_fields initial
reset_lem s h =
    ap
      (λ b. reset_fields (
        if b
        then s
        else record s { local_storage = erase (last_read_key s.username) s.local_storage }))
      h
