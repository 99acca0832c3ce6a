-- ===== src/ChatApi/Reconnect.antt =====
-- When the object reconnects and when it stays away.
use token_dance_chat.Base.{
  ℕ, ◌+◌, ◌≤◌, ◌<◌, ◌≡◌, ◌≢◌, refl, sym, subst, ap, ◌∙◌, true, List, [], ◌∷◌, ◌++◌, Option-cases,
  inl, inr, Option, none, some, arith, Text, lit, ltb, text_dec, if◌then◌else◌,
}
use token_dance_chat.Wire.{Fields, get, is_type, is_type-other}
use token_dance_chat.ChatApi.{
  ReadyState, Effect, closes, clears_reconnect, ChatApi, max_reconnect_attempts, emit, Reason,
  server_error, clears_timeout,
}
use token_dance_chat.ChatApi.Socket.{
  close_ws, reject_pending, disconnect, on_open, on_frame, ordinary_frame, on_message, on_close,
  on_error, on_timeout, reconnect_as, schedule_reconnect, give_up, forget_session, dispatch_both,
}
use token_dance_chat.ChatApi.Keeps.{dispatch_both-OnlyTrace}

-- Each of the five callbacks of a socket that is not the latest leaves the whole object as it is,
-- and calls nothing.
pub stale_callbacks :
    (ready : ℕ → ReadyState) (gen timer n d : ℕ) (username : Text) (token : Option Text)
    (frame : Option Fields) (s : ChatApi)
    → gen ≢ s.connect_generation
    → (on_open ready gen username token s ≡ s)
      × (on_message ready gen frame s ≡ s)
      × (on_close timer n d gen s ≡ s)
      × (on_error gen s ≡ s)
      × (on_timeout gen s ≡ s)
unfolding on_open on_message on_close on_error on_timeout
stale_callbacks ready gen timer n d username token none s h = ground arith
stale_callbacks ready gen timer n d username token (some data') s h = ground arith

disconnect_fields :
    (s : ChatApi)
    → let t = disconnect s in
      (t.ws ≡ none)
      × (t.outbound_queue ≡ [])
      × (t.pending_join ≡ none)
      × (t.reconnect_timer ≡ none)
      × (t.reconnect_username ≡ none)
      × (t.connect_generation ≡ s.connect_generation + 1)
unfolding disconnect close_ws
disconnect_fields s = ground arith

-- What `disconnect` does to the outside: the timer of the reconnection that is known is cleared, and
-- the socket is closed.
abbrev pub clearing : Option ℕ → List Effect
clearing none = []
clearing (some timer) = clears_reconnect timer ∷ []

abbrev pub closing : Option ℕ → List Effect
closing none = []
closing (some h) = closes h ∷ []

disconnect-trace :
    (s : ChatApi) → (disconnect s).trace ≡ closing s.ws ++ (clearing s.reconnect_timer ++ s.trace)
unfolding disconnect close_ws
disconnect-trace s = elim (Option-cases s.ws) [
  | inl e ↦ elim (Option-cases s.reconnect_timer) [
    | inl t ↦ rw (e, t) refl
    | inr (timer, t) ↦ rw (e, t) refl
  ]
  | inr (h, e) ↦ elim (Option-cases s.reconnect_timer) [
    | inl t ↦ rw (e, t) refl
    | inr (timer, t) ↦ rw (e, t) refl
  ]
]

-- `disconnect` clears the timer of the reconnection that the object knows, closes its socket, and
-- does nothing else to the outside; after it nothing waits, and no socket opened until then has any
-- further effect. A timer that a later one has taken the place of is not known to the object.
pub disconnect_final :
    (ready : ℕ → ReadyState) (gen timer n d : ℕ) (username : Text) (token : Option Text)
    (frame : Option Fields) (s : ChatApi)
    → gen ≤ s.connect_generation
    → let t = disconnect s in
      (t.ws ≡ none)
      × (t.outbound_queue ≡ [])
      × (t.pending_join ≡ none)
      × (t.reconnect_timer ≡ none)
      × (t.reconnect_username ≡ none)
      × (t.trace ≡ closing s.ws ++ (clearing s.reconnect_timer ++ s.trace))
      × (on_open ready gen username token t ≡ t)
      × (on_message ready gen frame t ≡ t)
      × (on_close timer n d gen t ≡ t)
      × (on_error gen t ≡ t)
      × (on_timeout gen t ≡ t)
disconnect_final ready gen timer n d username token frame s h =
    let (ws, queue, join, timer_off, name_off, generation) = disconnect_fields s in
    let (o, m, c, e, x) =
      stale_callbacks ready gen timer n d username token frame (disconnect s)
        (λ same. omega (arith, generation, same, h)) in
    (ws, queue, join, timer_off, name_off, disconnect-trace s, o, m, c, e, x)

-- The close of the latest socket while no join is pending and a name that is not empty is known:
-- a reconnection is scheduled if fewer than ten attempts have been made, and given up otherwise.
pub on_close_retries :
    (timer n d gen c : ℕ) (cs : Text) (s : ChatApi)
    → gen ≡ s.connect_generation
    → s.pending_join ≡ none
    → s.reconnect_username ≡ some (c ∷ cs)
    → on_close timer n d gen s ≡ (
        if ltb s.reconnect_attempt max_reconnect_attempts
        then schedule_reconnect timer n d (c ∷ cs) s
        else give_up s)
unfolding on_close reconnect_as
on_close_retries timer n d gen c cs s g j e = ground arith

on_message_current :
    (ready : ℕ → ReadyState) (data' : Fields) (s : ChatApi)
    → on_message ready s.connect_generation (some data') s
      ≡ on_frame ready s.connect_generation data' s
unfolding on_message
on_message_current ready data' s = ground arith

-- The state after a refusal, whatever the reason given.
refused_fields :
    (reason : Reason) (gen p : ℕ) (s : ChatApi)
    → s.pending_join ≡ some p
    → let t = close_ws (reject_pending reason (emit (clears_timeout gen) s)) in
      (t.pending_join ≡ none)
      × (t.reconnect_username ≡ s.reconnect_username)
      × (t.reconnect_attempt ≡ s.reconnect_attempt)
      × (t.connect_generation ≡ s.connect_generation)
unfolding reject_pending close_ws
refused_fields reason gen p s j = ground arith

on_frame-error :
    (ready : ℕ → ReadyState) (gen p : ℕ) (data' : Fields) (s : ChatApi)
    → s.pending_join ≡ some p
    → is_type (lit "error") data' ≡ true
    → on_frame ready gen data' s
      ≡ close_ws
          (reject_pending (server_error (get (lit "content") data')) (emit (clears_timeout gen) s))
unfolding on_frame
on_frame-error ready gen p data' s j t = ground arith

pub refused_join_fields :
    (ready : ℕ → ReadyState) (gen p : ℕ) (data' : Fields) (s : ChatApi)
    → gen ≡ s.connect_generation
    → s.pending_join ≡ some p
    → is_type (lit "error") data' ≡ true
    → let t = on_message ready gen (some data') s in
      (t.reconnect_attempt ≡ s.reconnect_attempt) × (t.connect_generation ≡ s.connect_generation)
refused_join_fields ready gen p data' s g j t =
    let reason = server_error (get (lit "content") data') in
    let e =
      on_message_current ready data' s ∙ on_frame-error ready s.connect_generation p data' s j t in
    let (_, _, a', g') = refused_fields reason s.connect_generation p s j in
    subst
      (λ k.
        let r = on_message ready k (some data') s in
        (r.reconnect_attempt ≡ s.reconnect_attempt) × (r.connect_generation ≡ s.connect_generation))
      (sym g) (ap (λ r. r.reconnect_attempt) e ∙ a', ap (λ r. r.connect_generation) e ∙ g')

-- A server that refuses a pending join with an `error` frame, under a name that is not empty and
-- with fewer than ten attempts made: the join is no longer pending, and the close that follows
-- schedules a reconnection under the same name.
pub refused_join_reconnects :
    (ready : ℕ → ReadyState) (timer n d p c : ℕ) (cs : Text) (data' : Fields) (s : ChatApi)
    → s.pending_join ≡ some p
    → s.reconnect_username ≡ some (c ∷ cs)
    → s.reconnect_attempt < max_reconnect_attempts
    → is_type (lit "error") data' ≡ true
    → let refused = on_message ready s.connect_generation (some data') s in
      (refused.pending_join ≡ none)
      × (on_close timer n d s.connect_generation refused
          ≡ schedule_reconnect timer n d (c ∷ cs) refused)
refused_join_reconnects ready timer n d p c cs data' s j u a t =
    let reason = server_error (get (lit "content") data') in
    let refused = close_ws (reject_pending reason (emit (clears_timeout s.connect_generation) s)) in
    let e : on_message ready s.connect_generation (some data') s ≡ refused =
      on_message_current ready data' s ∙ on_frame-error ready s.connect_generation p data' s j t in
    let (j', u', a', g') = refused_fields reason s.connect_generation p s j in
    subst
      (λ r.
        (r.pending_join ≡ none)
        × (on_close timer n d s.connect_generation r ≡ schedule_reconnect timer n d (c ∷ cs) r))
      (sym e)
      (
        j',
        ground (
          arith,
          on_close_retries timer n d s.connect_generation c cs refused (sym g') j' (u' ∙ u),
        ),
      )

kicked_frame :
    (ready : ℕ → ReadyState) (gen : ℕ) (data' : Fields) (s : ChatApi)
    → s.pending_join ≡ none
    → is_type (lit "kicked") data' ≡ true
    → on_frame ready gen data' s ≡ dispatch_both data' (forget_session s)
unfolding on_frame ordinary_frame text_dec
kicked_frame ready gen data' s j t =
    ground (arith, is_type-other (lit "kicked") (lit "history") data' t refl)

on_close_nameless :
    (timer n d gen : ℕ) (s : ChatApi)
    → s.pending_join ≡ none
    → s.reconnect_username ≡ none
    → on_close timer n d gen s ≡ s
unfolding on_close reconnect_as
on_close_nameless timer n d gen s j u = ground arith

-- A `kicked` frame that comes while no join is pending forgets the name and the token of the
-- session, and the close that follows changes nothing: no reconnection.
pub kicked_stays_away :
    (ready : ℕ → ReadyState) (timer n d : ℕ) (data' : Fields) (s : ChatApi)
    → s.pending_join ≡ none
    → is_type (lit "kicked") data' ≡ true
    → let kicked = on_message ready s.connect_generation (some data') s in
      (kicked.reconnect_username ≡ none)
      × (kicked.reconnect_token ≡ none)
      × (on_close timer n d s.connect_generation kicked ≡ kicked)
unfolding forget_session
kicked_stays_away ready timer n d data' s j t =
    let kicked = dispatch_both data' (forget_session s) in
    let e : on_message ready s.connect_generation (some data') s ≡ kicked =
      on_message_current ready data' s ∙ kicked_frame ready s.connect_generation data' s j t in
    let only = dispatch_both-OnlyTrace data' (forget_session s) in
    let name : kicked.reconnect_username ≡ none = ap (λ k. k.reconnect_username) only in
    subst
      (λ k.
        (k.reconnect_username ≡ none)
        × (k.reconnect_token ≡ none)
        × (on_close timer n d s.connect_generation k ≡ k))
      (sym e)
      (
        name,
        ap (λ k. k.reconnect_token) only,
        on_close_nameless timer n d s.connect_generation kicked (ap (λ k. k.pending_join) only ∙ j)
            name,
      )
