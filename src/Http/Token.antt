-- ===== src/Http/Token.antt =====
-- The session token.
use token_dance_chat.Base.{
  ◌≡◌, Bool, true, false, List, [], ◌∷◌, ◌++◌, Option, none, some, Text, lit, ◌==◌, if◌then◌else◌,
  arith,
}

-- The first argument says whether localStorage is available, the last is its item.
unfoldable pub get_session_token : Bool → Option Text → Option Text
get_session_token available stored = if available then stored else none

-- An empty token counts as none.
unfoldable pub stored_token : Option Text → Option Text
stored_token none = none
stored_token (some token) = if token == [] then none else some token

unfoldable pub persist_session_token : Bool → Option Text → Option Text → Option Text
persist_session_token available token stored = if available then stored_token token else stored

unfoldable pub bearer : Option Text → List (Text × Text)
bearer none = []
bearer (some token) = if token == [] then [] else (lit "Authorization", lit "Bearer " ++ token) ∷ []

unfoldable pub get_session_auth_headers : Bool → Option Text → List (Text × Text)
get_session_auth_headers available stored = bearer (get_session_token available stored)

-- A token that is kept, and is not empty, is the one that the next requests carry; when it is
-- removed they carry none; and without a storage they carry none and nothing is kept.
pub get_session_auth_headers-persist_session_token :
    (token : Text) (stored : Option Text)
    → (token == []) ≡ false
    → (get_session_auth_headers true (persist_session_token true (some token) stored)
        ≡ (lit "Authorization", lit "Bearer " ++ token) ∷ [])
      × (get_session_auth_headers true (persist_session_token true none stored) ≡ [])
      × (get_session_auth_headers false (persist_session_token false (some token) stored) ≡ [])
unfolding get_session_auth_headers persist_session_token get_session_token stored_token bearer
get_session_auth_headers-persist_session_token token stored h = ground (arith, h)

-- The address of the socket, from that of the page.
unfoldable pub get_default_ws_url : Text → Text → Text
get_default_ws_url host protocol =
    let where_to = if host == [] then lit "localhost:8080" else host in
    (if protocol == lit "https:" then lit "wss:" else lit "ws:")
    ++ (lit "//" ++ (where_to ++ lit "/ws"))
