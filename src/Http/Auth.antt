-- ===== src/Http/Auth.antt =====
-- The calls that are rejected where they fail.
use token_dance_chat.Base.{
  ℕ, true, false, List, [], ◌∷◌, ◌++◌, Option, none, some, Text, lit, if◌then◌else◌, eqb,
}
use mathlib.Core.Option.{get_or}
use token_dance_chat.Wire.{Json, nil, arr, str, num, Fields, end, field}
use token_dance_chat.Http.Requests.{
  json_body, Request, Response, Failure, error, auth_failed, Outcome, done, fails, ◌>>=◌, fetched,
  parsed, member, or_truthy,
}
use token_dance_chat.Http.Calls.{get_request}

abbrev pub json_type : Text × Text
json_type = (lit "Content-Type", lit "application/json")

abbrev pub post_request : Text → List (Text × Text) → Fields → Request
post_request path headers fields = record {
  path = path;
  headers = json_type ∷ headers;
  body = json_body fields;
  manual_redirect = false;
}

-- The message of a refusal: that of the body, or the default where the body is no JSON or has none.
unfoldable pub message_of : Text → Option Json → Outcome Json
message_of default content =
    member (lit "error") (get_or content (Json.obj (field (lit "error") (str default) end)))
    >>= λ m. done (or_truthy m (str default))

unfoldable pub refuse : (ℕ → Json → Failure) → Text → Response → Outcome Json
refuse fail default r = message_of default r.content >>= λ m. fails (fail r.status m)

unfoldable pub answer : (ℕ → Json → Failure) → Text → Response → Outcome Json
answer fail default r = if r.ok then parsed r.content else refuse fail default r

unfoldable pub called : (ℕ → Json → Failure) → Text → Option Response → Outcome Json
called fail default resp = fetched resp >>= answer fail default

-- The error of most calls; a refused login has a code of its own.
abbrev pub plain_error : ℕ → Json → Failure
plain_error status m = error m

abbrev pub login_error : ℕ → Json → Failure
login_error status m = if eqb status 401 then auth_failed m else error m

unfoldable pub fixed : Text → Response → Outcome Json
fixed message r = if r.ok then parsed r.content else fails (error (str message))

-- `turnstileToken ?? ""`
abbrev pub turnstile : Option Text → Json
turnstile token = str (get_or token [])

-- A name that is the empty text is left out.
unfoldable pub user_param : Option Text → List (Text × Text)
user_param none = []
user_param (some []) = []
user_param (some (c ∷ cs)) = (lit "username", c ∷ cs) ∷ []

module _ (fetch : Request → Option Response) (encode : Text → Text)
    (params : List (Text × Text) → Text) (auth : List (Text × Text)) where
  unfoldable pub register_user : Text → Text → Text → Option Text → Outcome Json
  register_user username password invite_code token =
      called plain_error (lit "Registration failed") (
        fetch (
          post_request (lit "/api/register") [] (
            field (lit "username") (str username) (
              field (lit "password") (str password) (
                field (lit "invite_code") (str invite_code)
                  (field (lit "cf_turnstile_response") (turnstile token) end))))))

  unfoldable pub login_user : Text → Text → Option Text → Outcome Json
  login_user username password token = called login_error (lit "Login failed") (
      fetch (
        post_request (lit "/api/login") [] (
          field (lit "username") (str username) (
            field (lit "password") (str password)
              (field (lit "cf_turnstile_response") (turnstile token) end)))))

  unfoldable pub generate_invite_code : Text → ℕ → Outcome Json
  generate_invite_code username max_uses =
      called plain_error (lit "Failed to generate invite code") (
        fetch (
          post_request (lit "/api/invite/generate") auth
            (field (lit "username") (str username) (field (lit "max_uses") (num max_uses) end))))

  unfoldable pub list_invite_codes : Text → Outcome Json
  list_invite_codes username =
      called plain_error (lit "Failed to list invite codes")
        (fetch (get_request (lit "/api/invite/list?username=" ++ encode username) auth false))
      >>= λ d. member (lit "codes") d >>= λ codes. done (or_truthy codes (arr nil))

  unfoldable pub fetch_oidc_config : Outcome Json
  fetch_oidc_config =
      fetched (fetch (get_request (lit "/api/oidc/config") [] true))
      >>= fixed (lit "OIDC not available")

  unfoldable pub oidc_exchange_code : Text → Text → Outcome Json
  oidc_exchange_code code code_verifier = called plain_error (lit "Token exchange failed") (
      fetch (
        post_request (lit "/api/oidc/exchange") []
          (field (lit "code") (str code) (field (lit "code_verifier") (str code_verifier) end))))

  unfoldable pub oidc_refresh_token : Text → Outcome Json
  oidc_refresh_token refresh_token =
      fetched (
        fetch (
          post_request (lit "/api/oidc/refresh") []
            (field (lit "refresh_token") (str refresh_token) end)))
      >>= fixed (lit "Token refresh failed")

  -- `exportChat`, which gives the response whose bytes are saved.
  unfoldable pub export_chat : Text → Text → Option Text → Outcome Response
  export_chat conversation format username =
      let query =
        (lit "conversation", conversation) ∷ (lit "format", format) ∷ user_param username in
      fetched (fetch (get_request (lit "/api/export?" ++ params query) auth false)) >>= λ r.
      if r.ok then done r else fails (error (str (lit "Export failed")))
