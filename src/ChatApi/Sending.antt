-- ===== src/ChatApi/Sending.antt =====
-- What becomes of the commands: sent at once, or kept until the join is done.
use mathlib.Core.List.{append_assoc, append-nil}
use token_dance_chat.Base.{
  ℕ, ◌+◌, ◌≤◌, ◌≡◌, refl, sym, ap, ◌∙◌, true, false, not, ◌&&◌, List, [], ◌∷◌, ◌++◌, map, none,
  some, text_dec, lit, arith, length, length-append, if◌then◌else◌, Bool-cases, inl, inr,
}
use token_dance_chat.Wire.{Fields, is_type, type_of, get}
use token_dance_chat.ChatApi.{ReadyState, ChatApi, is_some, max_queue}
use token_dance_chat.ChatApi.Socket.{send, enqueue, is_open, join_done}
use token_dance_chat.ChatApi.Delivery.{sent, transmit-sent, is_open-ws, join_done_delivers}
use token_dance_chat.ChatApi.Commands
use token_dance_chat.ChatApi.Commands.{Command, frame_of, perform, perform_all}

frame_of-no_join : (c : Command) → is_type (lit "join") (frame_of c) ≡ false
unfolding frame_of is_type type_of get text_dec Commands.message_frame
    Commands.send_thread_reply_frame Commands.request_thread_messages_frame
    Commands.delete_message_frame Commands.send_mark_read_frame Commands.send_room_leave_frame
    Commands.send_typing_start_frame Commands.send_typing_stop_frame Commands.send_reaction_frame
    Commands.send_message_edit_frame Commands.send_set_topic_frame Commands.send_block_frame
    Commands.send_unblock_frame Commands.send_block_list_frame Commands.send_load_history_frame
    Commands.send_pin_message_frame Commands.send_unpin_message_frame
    Commands.send_set_notification_prefs_frame Commands.send_get_notification_prefs_frame
    Commands.send_poll_create_frame Commands.send_poll_vote_frame Commands.send_poll_close_frame
    Commands.send_profile_update_frame Commands.send_profile_get_frame
    Commands.send_status_update_frame Commands.send_custom_emoji_add_frame
    Commands.send_custom_emoji_delete_frame Commands.send_custom_emoji_list_frame
    Commands.send_translate_message_frame
frame_of-no_join (Commands.send_message a none b c) = refl
frame_of-no_join (Commands.send_message a (some m) b c) = refl
frame_of-no_join (Commands.send_thread_reply a b) = refl
frame_of-no_join (Commands.request_thread_messages a) = refl
frame_of-no_join (Commands.delete_message a) = refl
frame_of-no_join Commands.send_mark_read = refl
frame_of-no_join Commands.send_room_leave = refl
frame_of-no_join (Commands.send_typing_start a) = refl
frame_of-no_join Commands.send_typing_stop = refl
frame_of-no_join (Commands.send_reaction a b) = refl
frame_of-no_join (Commands.send_message_edit a b) = refl
frame_of-no_join (Commands.send_set_topic a) = refl
frame_of-no_join (Commands.send_block a) = refl
frame_of-no_join (Commands.send_unblock a) = refl
frame_of-no_join Commands.send_block_list = refl
frame_of-no_join (Commands.send_load_history a) = refl
frame_of-no_join (Commands.send_pin_message a) = refl
frame_of-no_join (Commands.send_unpin_message a) = refl
frame_of-no_join (Commands.send_set_notification_prefs a b c) = refl
frame_of-no_join Commands.send_get_notification_prefs = refl
frame_of-no_join (Commands.send_poll_create a b c d) = refl
frame_of-no_join (Commands.send_poll_vote a b) = refl
frame_of-no_join (Commands.send_poll_close a) = refl
frame_of-no_join (Commands.send_profile_update a) = refl
frame_of-no_join (Commands.send_profile_get a) = refl
frame_of-no_join (Commands.send_status_update a) = refl
frame_of-no_join (Commands.send_custom_emoji_add a b) = refl
frame_of-no_join (Commands.send_custom_emoji_delete a) = refl
frame_of-no_join Commands.send_custom_emoji_list = refl
frame_of-no_join (Commands.send_translate_message a b c) = refl

-- Every command is either sent at once, which it is exactly when the socket is open and no join is
-- pending, or put into the queue; never both, and never neither.
pub perform_lem :
    (ready : ℕ → ReadyState) (c : Command) (s : ChatApi)
    → let now = is_open ready s && not (is_some s.pending_join) in
      let t = perform ready c s in
      (sent t.trace ≡ (if now then sent s.trace ++ frame_of c ∷ [] else sent s.trace))
      × (t.outbound_queue
          ≡ (if now then s.outbound_queue else enqueue (frame_of c) s.outbound_queue))
unfolding perform send
perform_lem ready c s = elim (Bool-cases (is_open ready s)) [
  | inr shut ↦ ground (arith, frame_of-no_join c, shut)
  | inl opened ↦
      let (h, at) = is_open-ws ready s opened in
      let leaves = transmit-sent h (frame_of c) s at in
      ground (arith, frame_of-no_join c, opened, leaves)
]

-- What the commands leave alone.
perform-fields :
    (ready : ℕ → ReadyState) (c : Command) (s : ChatApi)
    → ((perform ready c s).ws ≡ s.ws) × ((perform ready c s).pending_join ≡ s.pending_join)
unfolding perform send
perform-fields ready c s = ground (arith)

enqueue-fits :
    (data' : Fields) (queue : List Fields)
    → length queue + 1 ≤ max_queue
    → enqueue data' queue ≡ queue ++ data' ∷ []
unfolding enqueue
enqueue-fits data' queue h = ground (arith, length-append queue (data' ∷ []))

abbrev pub frames : List ((ℕ → ReadyState) × Command) → List Fields
frames = map (λ c. frame_of c.1)

perform_all-waits :
    (p : ℕ) (cs : List ((ℕ → ReadyState) × Command)) (s : ChatApi)
    → s.pending_join ≡ some p
    → length s.outbound_queue + length cs ≤ max_queue
    → let t = perform_all cs s in
      (sent t.trace ≡ sent s.trace)
      × (t.outbound_queue ≡ s.outbound_queue ++ frames cs)
      × (t.ws ≡ s.ws)
unfolding perform_all
perform_all-waits p [] s j h = (refl, sym (append-nil _), refl)
perform_all-waits p ((ready, c) ∷ cs) s j h =
    let (quiet, held) = perform_lem ready c s in
    let (same_ws, same_join) = perform-fields ready c s in
    let kept : (perform ready c s).outbound_queue ≡ s.outbound_queue ++ frame_of c ∷ [] =
      ground (arith, held, j, enqueue-fits (frame_of c) s.outbound_queue (omega arith)) in
    let silent : sent (perform ready c s).trace ≡ sent s.trace = ground (arith, quiet, j) in
    let size : length (perform ready c s).outbound_queue ≡ length s.outbound_queue + 1 =
      ap length kept ∙ length-append s.outbound_queue (frame_of c ∷ []) in
    let (quiets, helds, ws') =
      perform_all-waits p cs (perform ready c s) (same_join ∙ j) (omega arith) in
    (
      quiets ∙ silent,
      helds
          ∙ ap (λ q. q ++ frames cs) kept
          ∙ append_assoc s.outbound_queue (frame_of c ∷ []) (frames cs),
      ws' ∙ same_ws,
    )

-- Commands given while a join is pending, no more than fit in the queue, all reach the server when
-- the join is done on an open socket: in the order in which they were given, after what was sent
-- and what waited before.
pub perform_all-delivered :
    (ready : ℕ → ReadyState) (gen p : ℕ) (cs : List ((ℕ → ReadyState) × Command)) (s : ChatApi)
    → s.pending_join ≡ some p
    → length s.outbound_queue + length cs ≤ max_queue
    → is_open ready s ≡ true
    → sent (join_done ready gen p (perform_all cs s)).trace
      ≡ sent s.trace ++ (s.outbound_queue ++ frames cs)
unfolding is_open
perform_all-delivered ready gen p cs s j h o =
    let (quiet, held, same_ws) = perform_all-waits p cs s j h in
    let (delivered, _, _, _) =
      join_done_delivers ready gen p (perform_all cs s) (unfold is_open in rw same_ws o) in
    delivered
    ∙ ap (λ x. x ++ (perform_all cs s).outbound_queue) quiet
    ∙ ap (λ q. sent s.trace ++ q) held
