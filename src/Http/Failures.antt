-- ===== src/Http/Failures.antt =====
-- What becomes of the calls where the server or the network fails.
use token_dance_chat.Base.{
  ℕ, ◌≡◌, refl, ap, ◌∙◌, Bool, true, false, not, ◌||◌, List, ◌∷◌, Option, none, some, Text, lit,
  text_dec, if◌then◌else◌, eqb, Bool-cases, inl, inr, arith,
}
use token_dance_chat.Wire.{Json, nil, arr, obj, str, Fields, get}
use token_dance_chat.Http.Requests.{
  Request, Response, Failure, error, auth_failed, Outcome, done, fails, ◌>>=◌, fetched, parsed,
  member, or_truthy, caught,
}
use token_dance_chat.Http.Calls.{
  read, quietly, fetch_link_preview, fetch_server_config, upload_emoji, search_messages,
  fetch_messages_between, fetch_public_messages,
}
use token_dance_chat.Http.Auth.{
  message_of, refuse, answer, called, plain_error, login_error, register_user, login_user,
  generate_invite_code, list_invite_codes, oidc_exchange_code,
}

abbrev pub is_absent : Option Json → Bool
is_absent none = true
is_absent (some j) = false

-- No response, a response that is not ok, or one whose body is no JSON.
abbrev pub is_broken : Option Response → Bool
is_broken none = true
is_broken (some r) = not r.ok || is_absent r.content

read-absent {ℓ} :
    {A : Type ℓ} (other : A) (use' : Json → Outcome A) (content : Option Json)
    → is_absent content ≡ true
    → caught other (parsed content >>= use') ≡ other
unfolding parsed caught
read-absent other use' none h = refl
read-absent other use' (some j) h = absurd (cc)

quietly-broken {ℓ} :
    {A : Type ℓ} (other : A) (use' : Json → Outcome A) (resp : Option Response)
    → is_broken resp ≡ true
    → quietly other use' resp ≡ other
unfolding quietly fetched read caught
quietly-broken other use' none h = refl
quietly-broken other use' (some r) h = elim (Bool-cases r.ok) [
  | inr bad ↦ ap (λ b. caught other (if b then parsed r.content >>= use' else done other)) bad
  | inl good ↦
      ap (λ b. caught other (if b then parsed r.content >>= use' else done other)) good
      ∙ read-absent other use' r.content (ground (arith, good, h))
]

module _ (fetch : Request → Option Response) (encode : Text → Text)
    (params : List (Text × Text) → Text) (auth : List (Text × Text)) where
  -- Where no request gets a response, or each gets one that is not ok or whose body is no JSON, none
  -- of the six calls that only read or upload fails: each gives its empty answer.
  pub quiet_calls-broken :
      (url name query username limit : Text) (file : ℕ) (room_id : Option Text)
      → ((q : Request) → is_broken (fetch q) ≡ true)
      → (fetch_link_preview fetch encode params auth url ≡ none)
        × (fetch_server_config fetch encode params auth ≡ none)
        × (upload_emoji fetch encode params auth file name ≡ none)
        × (search_messages fetch encode params auth query room_id ≡ arr nil)
        × (fetch_messages_between fetch encode params auth username ≡ arr nil)
        × (fetch_public_messages fetch encode params auth limit ≡ arr nil)
  unfolding fetch_link_preview fetch_server_config upload_emoji search_messages
      fetch_messages_between fetch_public_messages
  quiet_calls-broken url name query username limit file room_id h = (
    quietly-broken _ _ _ (h _),
    quietly-broken _ _ _ (h _),
    quietly-broken _ _ _ (h _),
    quietly-broken _ _ _ (h _),
    quietly-broken _ _ _ (h _),
    quietly-broken _ _ _ (h _),
  )

  refused :
      (fail : ℕ → Json → Failure) (default : Text) (c : ℕ) (cs : Text) (fs : Fields) (status : ℕ)
      → get (lit "error") fs ≡ some (str (c ∷ cs))
      → called fail default (some (record { ok = false; status = status; content = some (obj fs) }))
        ≡ fails (fail status (str (c ∷ cs)))
  unfolding called fetched answer refuse message_of member or_truthy text_dec
  refused fail default c cs fs status e = rw e refl

  -- Where the server refuses every request with a message that is not empty, the calls for accounts
  -- and invitations are rejected with that message, and a login that is refused with status 401 with
  -- the code of a failed authentication.
  pub calls-refused :
      (username password code : Text) (token : Option Text) (n c : ℕ) (cs : Text) (fs : Fields)
      (status : ℕ)
      → get (lit "error") fs ≡ some (str (c ∷ cs))
      → ((q : Request)
          → fetch q ≡ some (record { ok = false; status = status; content = some (obj fs) }))
      → let m = str (c ∷ cs) in
        (login_user fetch encode params auth username password token
          ≡ fails (if eqb status 401 then auth_failed m else error m))
        × (register_user fetch encode params auth username password code token ≡ fails (error m))
        × (generate_invite_code fetch encode params auth username n ≡ fails (error m))
        × (list_invite_codes fetch encode params auth username ≡ fails (error m))
        × (oidc_exchange_code fetch encode params auth code password ≡ fails (error m))
  unfolding login_user register_user generate_invite_code list_invite_codes oidc_exchange_code
  calls-refused username password code token n c cs fs status e h = (
    ap (called login_error (lit "Login failed")) (h _) ∙ refused login_error _ c cs fs status e,
    ap (called plain_error (lit "Registration failed")) (h _)
        ∙ refused plain_error _ c cs fs status e,
    ap (called plain_error (lit "Failed to generate invite code")) (h _)
        ∙ refused plain_error _ c cs fs status e,
    ap (λ o. o >>= λ d. member (lit "codes") d >>= λ codes. done (or_truthy codes (arr nil)))
        (ap (called plain_error (lit "Failed to list invite codes")) (h _)
          ∙ refused plain_error _ c cs fs status e),
    ap (called plain_error (lit "Token exchange failed")) (h _)
        ∙ refused plain_error _ c cs fs status e,
  )
