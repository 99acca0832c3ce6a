-- ===== src/Http/Tests.antt =====
-- The theorems on the calls at concrete servers.
use token_dance_chat.Base.{◌≡◌, refl, false, List, [], Option, none, some, Text, lit, text_dec}
use token_dance_chat.Wire.{nil, arr, obj, str, Fields, end, field, get}
use token_dance_chat.Http.Requests.{Request, Response, error, auth_failed, fails}
use token_dance_chat.Http.Calls.{
  fetch_link_preview, fetch_server_config, upload_emoji, search_messages, fetch_messages_between,
  fetch_public_messages,
}
use token_dance_chat.Http.Auth.{
  register_user, login_user, generate_invite_code, list_invite_codes, oidc_exchange_code,
}
use token_dance_chat.Http.Failures.{quiet_calls-broken, calls-refused}

-- A server that cannot be reached.
abbrev offline : Request → Option Response
offline q = none

abbrev plain : Text → Text
plain t = t

abbrev printed : List (Text × Text) → Text
printed ps = lit "q=x"

quiet_calls-broken_example :
    (fetch_link_preview offline plain printed [] (lit "a.b") ≡ none)
    × (fetch_server_config offline plain printed [] ≡ none)
    × (upload_emoji offline plain printed [] 1 (lit "cat") ≡ none)
    × (search_messages offline plain printed [] (lit "x") none ≡ arr nil)
    × (fetch_messages_between offline plain printed [] (lit "bob") ≡ arr nil)
    × (fetch_public_messages offline plain printed [] (lit "100") ≡ arr nil)
quiet_calls-broken_example =
    quiet_calls-broken offline plain printed [] (lit "a.b") (lit "cat") (lit "x") (lit "bob")
      (lit "100") 1 none (λ q. refl)

abbrev reason : Fields
reason = field (lit "error") (str (lit "no")) end

-- A server that refuses everything.
abbrev refusing : Request → Option Response
refusing q = some (record { ok = false; status = 401; content = some (obj reason) })

calls-refused_example :
    (login_user refusing plain printed [] (lit "bob") (lit "pw") none
      ≡ fails (auth_failed (str (lit "no"))))
    × (register_user refusing plain printed [] (lit "bob") (lit "pw") (lit "c") none
        ≡ fails (error (str (lit "no"))))
    × (generate_invite_code refusing plain printed [] (lit "bob") 5
        ≡ fails (error (str (lit "no"))))
    × (list_invite_codes refusing plain printed [] (lit "bob") ≡ fails (error (str (lit "no"))))
    × (oidc_exchange_code refusing plain printed [] (lit "c") (lit "pw")
        ≡ fails (error (str (lit "no"))))
unfolding get text_dec
calls-refused_example =
    calls-refused refusing plain printed [] (lit "bob") (lit "pw") (lit "c") none 5 b'n' (lit "o")
      reason 401 refl (λ q. refl)
