-- ===== src/Transcript/Deletion.antt =====
-- Deleting the selected messages.
use mathlib.Core.List.{append_assoc, append-nil}
use token_dance_chat.Base.{
  ℕ, ◌≡◌, refl, sym, ap, ◌∙◌, true, false, ◌&&◌, List, [], ◌∷◌, ◌++◌, map, none, Text, ◌==◌,
  includes, arith, if◌then◌else◌,
}
use token_dance_chat.Message.{ChatMessage}
use token_dance_chat.Wire.{Fields}
use token_dance_chat.ChatApi.{ReadyState, ChatApi}
use token_dance_chat.ChatApi.Socket.{is_open, send}
use token_dance_chat.ChatApi.Delivery.{sent}
use token_dance_chat.ChatApi.Commands
use token_dance_chat.ChatApi.Commands.{Command, frame_of, perform}
use token_dance_chat.ChatApi.Sending.{perform_lem}
use token_dance_chat.Transcript.{View}
use token_dance_chat.Transcript.Selection.{exit_select_mode}

-- `effectiveMessages.filter((m) => selectedIds.has(m.id))`
unfoldable pub selected_messages : List Text → List ChatMessage → List ChatMessage
selected_messages selected [] = []
selected_messages selected (m ∷ ms) =
    let rest = selected_messages selected ms in if includes selected m.id then m ∷ rest else rest

-- `selectedMessages.filter((m) => m.username === username)`
unfoldable pub own_messages : Text → List ChatMessage → List ChatMessage
own_messages username [] = []
own_messages username (m ∷ ms) =
    let rest = own_messages username ms in if m.username == username then m ∷ rest else rest

unfoldable pub delete_each : (ℕ → ReadyState) → List ChatMessage → ChatApi → ChatApi
delete_each ready [] api = api
delete_each ready (m ∷ ms) api =
    delete_each ready ms (perform ready (Commands.delete_message m.id) api)

unfoldable pub handle_batch_delete :
    (ℕ → ReadyState) → List ChatMessage → Text → View → ChatApi → View × ChatApi
handle_batch_delete ready messages username v api = (
  exit_select_mode v,
  delete_each ready (own_messages username (selected_messages v.selected_ids messages)) api,
)

-- The frame that deletes a message.
abbrev pub deletion : ChatMessage → Fields
deletion m = frame_of (Commands.delete_message m.id)

-- The frames for the messages of the user that are selected.
unfoldable pub deletions : Text → List Text → List ChatMessage → List Fields
deletions username selected [] = []
deletions username selected (m ∷ ms) =
    let rest = deletions username selected ms in
    if includes selected m.id && (m.username == username) then deletion m ∷ rest else rest

deletions_lem :
    (username : Text) (selected : List Text) (ms : List ChatMessage)
    → map deletion (own_messages username (selected_messages selected ms))
      ≡ deletions username selected ms
unfolding own_messages selected_messages deletions
deletions_lem username selected [] = refl
deletions_lem username selected (m ∷ ms) = ground (arith, deletions_lem username selected ms)

stays_open :
    (ready : ℕ → ReadyState) (c : Command) (s : ChatApi)
    → ((perform ready c s).ws ≡ s.ws) × ((perform ready c s).pending_join ≡ s.pending_join)
unfolding perform send
stays_open ready c s = ground arith

delete_each-sent :
    (ready : ℕ → ReadyState) (ms : List ChatMessage) (api : ChatApi)
    → is_open ready api ≡ true
    → api.pending_join ≡ none
    → sent (delete_each ready ms api).trace ≡ sent api.trace ++ map deletion ms
unfolding delete_each is_open
delete_each-sent ready [] api o j = sym (append-nil _)
delete_each-sent ready (m ∷ ms) api o j =
    let c = Commands.delete_message m.id in
    let (ws, join) = stays_open ready c api in
    let leaves : sent (perform ready c api).trace ≡ sent api.trace ++ deletion m ∷ [] =
      ground (arith, (perform_lem ready c api).0, o, j) in
    delete_each-sent ready ms (perform ready c api) (rw ws o) (join ∙ j)
    ∙ ap (λ x. x ++ map deletion ms) leaves
    ∙ append_assoc (sent api.trace) (deletion m ∷ []) (map deletion ms)

-- Over a connection that is open and joined, deleting the selection asks the server to delete the
-- selected messages of the user, in their order, and no message that is another user's or not
-- selected; afterwards nothing is selected.
pub handle_batch_delete_lem :
    (ready : ℕ → ReadyState) (messages : List ChatMessage) (username : Text) (v : View)
    (api : ChatApi)
    → is_open ready api ≡ true
    → api.pending_join ≡ none
    → let t = handle_batch_delete ready messages username v api in
      (sent t.1.trace ≡ sent api.trace ++ deletions username v.selected_ids messages)
      × (t.0.selected_ids ≡ [])
      × (t.0.select_mode ≡ false)
unfolding handle_batch_delete exit_select_mode
handle_batch_delete_lem ready messages username v api o j = (
  delete_each-sent ready (own_messages username (selected_messages v.selected_ids messages)) api o j
      ∙ ap (λ x. sent api.trace ++ x) (deletions_lem username v.selected_ids messages),
  refl,
  refl,
)
