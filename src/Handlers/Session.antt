-- ===== src/Handlers/Session.antt =====
-- What the hook gives to the components: connecting, sending, marking as read; the title of the
-- page; and the subscription that the components share.
use mathlib.Core.Option.{get_or}
use token_dance_chat.Base.{
  ℕ, ◌+◌, ◌-◌, ◌≡◌, refl, Bool, true, false, not, ◌&&◌, List, [], ◌∷◌, ◌++◌, Option, none, some,
  or_else, Text, lit, ◌==◌, ltb, eqb, arith, if◌then◌else◌,
}
use token_dance_chat.Message.{ChatMessage, chat_message}
use token_dance_chat.Store.{ChatState}
use token_dance_chat.Store.Messages
use token_dance_chat.Store.Conversations.{clear_conversation_unread, set_unread_count}
use token_dance_chat.Store.People.{set_connected, set_guest}
use token_dance_chat.ChatApi.{ReadyState, ChatApi}
use token_dance_chat.ChatApi.Socket.{disconnect}
use token_dance_chat.ChatApi.Commands
use token_dance_chat.ChatApi.Commands.{perform}
use token_dance_chat.Handlers.Frames.{public_key}

abbrev pub base_title : Text
base_title = lit "TokenDanceChat"

-- The template literal prints the number by a function of the browser.
unfoldable pub get_page_title : (ℕ → Text) → ℕ → Bool → Text
get_page_title print unread_count tab_active =
    if not tab_active && ltb 0 unread_count
    then lit "(" ++ (print unread_count ++ (lit ") " ++ base_title))
    else base_title

-- The token that `connect` hands to the socket; `stored` is the one of localStorage.
unfoldable pub token_of : Option Text → Option Text → ChatState → Option Text
token_of session_token stored s =
    if s.oidc_authenticated
    then s.oidc_access_token
    else if s.is_guest
    then none
    else or_else session_token stored

-- The hook's `connect` behind the promise of the socket: fulfilled, or rejected.
unfoldable pub on_connected : (ℕ → ReadyState) → ChatState → ChatApi → ChatState × ChatApi
on_connected ready s api = (
  if s.is_guest then set_connected true s else set_guest false (set_connected true s),
  perform ready Commands.send_block_list (perform ready Commands.send_mark_read api),
)

unfoldable pub on_connect_failed : ChatState → ChatState
on_connect_failed s = set_connected false s

unfoldable pub close_session : ChatState → ChatApi → ChatState × ChatApi
close_session s api = (set_connected false s, disconnect api)

-- `temp_id` is the generated id.
unfoldable pub optimistic_message : Text → Text → ℕ → ChatState → ChatMessage
optimistic_message temp_id content now s = record (chat_message temp_id s.username content now) {
  client_message_id = some temp_id;
  edited = some false;
}

unfoldable pub send_chat_message :
    (ℕ → ReadyState) → Text → Text → Option Text → ℕ → ChatState → ChatApi → ChatState × ChatApi
send_chat_message ready temp_id content to now s api =
    let m = optimistic_message temp_id content now s in
    let private = not (get_or to [] == []) in
    let shown =
      if private then Messages.add_private_bot_message m s else Messages.add_message m s in
    (
      Messages.set_reply_to none shown,
      perform ready
          (Commands.send_message content s.reply_to (some temp_id) (if private then to else none))
          api,
    )

-- The count in the title of the page is a variable of the module.
unfoldable pub read_all :
    (ℕ → ReadyState) → ℕ → Bool → ChatState → ChatApi → ℕ → ChatState × ChatApi × ℕ
read_all ready now storage_ok s api title_count = (
  set_unread_count 0 (clear_conversation_unread public_key now storage_ok s),
  perform ready Commands.send_mark_read api,
  0,
)

-- The subscription that the components share: how many hold it, how often its handlers are
-- registered, and whether there is a cleanup.
pub record Shared : Type 0 where
  pub count : ℕ
  pub registrations : ℕ
  pub has_cleanup : Bool

abbrev pub unshared : Shared
unshared = record { count = 0; registrations = 0; has_cleanup = false }

-- The effect of the hook.
unfoldable pub subscribe : Shared → Shared
subscribe s =
    let count = s.count + 1 in
    if ltb 1 count && s.has_cleanup
    then record s { count = count }
    else record { count = count; registrations = s.registrations + 1; has_cleanup = true }

-- `releaseSharedWebSocketSubscription`
unfoldable pub release : Shared → Shared
release s =
    let count = s.count - 1 in
    if eqb count 0 && s.has_cleanup
    then record { count = count; registrations = s.registrations - 1; has_cleanup = false }
    else record s { count = count }

-- `true` for a component that mounts, `false` for one that goes away.
unfoldable pub run_shared : List Bool → Shared → Shared
run_shared [] s = s
run_shared (true ∷ es) s = run_shared es (subscribe s)
run_shared (false ∷ es) s = run_shared es (release s)

abbrev pub at_most_one : ℕ → ℕ
at_most_one n = if ltb 0 n then 1 else 0

-- The components that are there after a run, one more for each that mounts and one less for each
-- that goes away; where there is none, none goes away.
abbrev pub mounted : List Bool → ℕ → ℕ
mounted [] n = n
mounted (true ∷ es) n = mounted es (n + 1)
mounted (false ∷ es) n = mounted es (n - 1)

abbrev IsShared : ℕ → Shared → Type 0
IsShared n s = (s.count ≡ n) × (s.registrations ≡ at_most_one n) × (s.has_cleanup ≡ ltb 0 n)

subscribe-IsShared : (n : ℕ) (s : Shared) → IsShared n s → IsShared (n + 1) (subscribe s)
unfolding subscribe
subscribe-IsShared n s h = ground arith

release-IsShared : (n : ℕ) (s : Shared) → IsShared n s → IsShared (n - 1) (release s)
unfolding release
release-IsShared n s h = ground arith

run-IsShared :
    (es : List Bool) (n : ℕ) (s : Shared) → IsShared n s → IsShared (mounted es n) (run_shared es s)
unfolding run_shared
run-IsShared [] n s h = h
run-IsShared (true ∷ es) n s h = run-IsShared es (n + 1) (subscribe s) (subscribe-IsShared n s h)
run-IsShared (false ∷ es) n s h = run-IsShared es (n - 1) (release s) (release-IsShared n s h)

-- However many components use the hook, and in whatever order they come and go, the handlers of the
-- frames are registered exactly once while at least one of them is mounted, and not at all
-- otherwise.
pub run_shared-registrations :
    (es : List Bool) → (run_shared es unshared).registrations ≡ at_most_one (mounted es 0)
run_shared-registrations es = (run-IsShared es 0 unshared (refl, refl, refl)).1
