-- ===== src/Http/Calls.antt =====
-- The calls that give an empty answer where they fail.
use token_dance_chat.Base.{
  ℕ, Bool, true, false, List, [], ◌∷◌, ◌++◌, Option, none, some, Text, lit, if◌then◌else◌,
}
use token_dance_chat.Wire.{Json, nil, arr}
use token_dance_chat.Http.Requests.{
  no_body, form_body, Request, Response, Outcome, done, ◌>>=◌, fetched, parsed, member, or_given,
  or_truthy, caught,
}

abbrev pub get_request : Text → List (Text × Text) → Bool → Request
get_request path headers manual = record {
  path = path;
  headers = headers;
  body = no_body;
  manual_redirect = manual;
}

unfoldable pub read {ℓ} : {A : Type ℓ} → A → (Json → Outcome A) → Response → Outcome A
read other use' r = if r.ok then parsed r.content >>= use' else done other

unfoldable pub quietly {ℓ} : {A : Type ℓ} → A → (Json → Outcome A) → Option Response → A
quietly other use' resp = caught other (fetched resp >>= read other use')

-- A room that is the empty text is left out.
unfoldable pub room_param : Option Text → List (Text × Text)
room_param none = []
room_param (some []) = []
room_param (some (c ∷ cs)) = (lit "room", c ∷ cs) ∷ []

-- `encode` is `encodeURIComponent`, `params` prints an `URLSearchParams`, `auth` are the headers of
-- the session.
module _ (fetch : Request → Option Response) (encode : Text → Text)
    (params : List (Text × Text) → Text) (auth : List (Text × Text)) where
  unfoldable pub fetch_link_preview : Text → Option Json
  fetch_link_preview url =
      quietly none (λ d. done (some d))
        (fetch (get_request (lit "/api/link-preview?url=" ++ encode url) [] false))

  unfoldable pub fetch_server_config : Option Json
  fetch_server_config =
      quietly none (λ d. done (some d)) (fetch (get_request (lit "/api/config") [] true))

  unfoldable pub upload_emoji : ℕ → Text → Option Json
  upload_emoji file name =
      quietly none (λ d. member (lit "url") d >>= λ url. done (some url))
        (fetch (record {
          path = lit "/api/emoji/upload";
          headers = auth;
          body = form_body file ((lit "name", name) ∷ []);
          manual_redirect = false;
        }))

  unfoldable pub search_messages : Text → Option Text → Json
  search_messages query room_id =
      quietly (arr nil) (λ d. member (lit "results") d >>= λ r. done (or_given r d))
        (fetch (
          get_request (lit "/api/search?" ++ params ((lit "q", query) ∷ room_param room_id)) auth
            false))

  unfoldable pub fetch_messages_between : Text → Json
  fetch_messages_between username =
      quietly (arr nil) (λ d. member (lit "messages") d >>= λ m. done (or_given m (arr nil)))
        (fetch (
          get_request
            (lit "/api/messages?" ++ params ((lit "to", username) ∷ (lit "limit", lit "100") ∷ []))
            auth true))

  -- The number is printed.
  unfoldable pub fetch_public_messages : Text → Json
  fetch_public_messages limit =
      quietly (arr nil) (λ d. member (lit "messages") d >>= λ m. done (or_truthy m (arr nil)))
        (fetch (get_request (lit "/api/messages?" ++ params ((lit "limit", limit) ∷ [])) [] true))
