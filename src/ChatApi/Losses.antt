-- ===== src/ChatApi/Losses.antt =====
-- Where the object does other than its comments say: a reconnection empties the queue, a first
-- connection that fails is retried, and a join that the server refuses is retried without end.
use token_dance_chat.Base.{
  ℕ, ◌+◌, ◌<◌, ◌≡◌, refl, sym, subst, ap, ◌∙◌, true, false, [], ◌∷◌, Option, none, some, arith,
  Text, lit,
}
use token_dance_chat.Wire.{Fields, is_type}
use token_dance_chat.ChatApi.{ReadyState, ChatApi, max_reconnect_attempts}
use token_dance_chat.ChatApi.Backoff.{reconnect_delay}
use token_dance_chat.ChatApi.Socket.{
  is_open, send, close_ws, connect, on_open, on_message, on_close, on_error, on_reconnect_timer,
  schedule_reconnect, reject_pending, reconnecting_message,
}
use token_dance_chat.ChatApi.Delivery.{sent, send_held}
use token_dance_chat.ChatApi.Keeps.{dispatch-OnlyTrace}
use token_dance_chat.ChatApi.Reconnect.{
  on_close_retries, refused_join_reconnects, refused_join_fields,
}

connect-queue :
    (username : Text) (token : Option Text) (s : ChatApi)
    → ((connect username token s).outbound_queue ≡ [])
      × (sent (connect username token s).trace ≡ sent s.trace)
unfolding connect close_ws sent
connect-queue username token s = ground arith

-- A frame that is not a join and is sent while the socket is not open is gone when the timer of the
-- reconnection fires: it has not left, and the queue is empty.
pub reconnect_loses_queue :
    (ready : ℕ → ReadyState) (username : Text) (data' : Fields) (s : ChatApi)
    → is_open ready s ≡ false
    → is_type (lit "join") data' ≡ false
    → let t = on_reconnect_timer username (send ready data' s) in
      (t.outbound_queue ≡ []) × (sent t.trace ≡ sent s.trace)
unfolding on_reconnect_timer
reconnect_loses_queue ready username data' s o j =
    let held = send ready data' s in
    let (empty, same) =
      connect-queue username held.reconnect_token
        (record held { reconnect_attempt = held.reconnect_attempt + 1 }) in
    (empty, same ∙ (send_held ready data' s o j).0)

failed_connect_fields :
    (username : Text) (token : Option Text) (s : ChatApi)
    → let gen = s.connect_generation + 1 in
      let t = on_error gen (connect username token s) in
      (t.pending_join ≡ none)
      × (t.reconnect_username ≡ some username)
      × (t.reconnect_attempt ≡ s.reconnect_attempt)
      × (t.connect_generation ≡ gen)
unfolding on_error reject_pending connect close_ws
failed_connect_fields username token s = ground arith

-- A `connect`, under a name that is not empty and with fewer than ten attempts made, whose socket
-- reports `error` and then `close`: the object schedules a reconnection.
pub failed_connect_retries :
    (timer n d c : ℕ) (cs : Text) (token : Option Text) (s : ChatApi)
    → s.reconnect_attempt < max_reconnect_attempts
    → let gen = s.connect_generation + 1 in
      let failed = on_error gen (connect (c ∷ cs) token s) in
      on_close timer n d gen failed ≡ schedule_reconnect timer n d (c ∷ cs) failed
failed_connect_retries timer n d c cs token s a =
    let gen = s.connect_generation + 1 in
    let failed = on_error gen (connect (c ∷ cs) token s) in
    let (j, u, k, g) = failed_connect_fields (c ∷ cs) token s in
    ground (arith, on_close_retries timer n d gen c cs failed (sym g) j u)

schedule_reconnect_fields :
    (timer n d : ℕ) (username : Text) (s : ChatApi)
    → let t = schedule_reconnect timer n d username s in
      (t.reconnect_timer ≡ some timer)
      × (t.reconnect_attempt ≡ s.reconnect_attempt)
      × (t.reconnect_token ≡ s.reconnect_token)
      × (t.connect_generation ≡ s.connect_generation)
unfolding schedule_reconnect
schedule_reconnect_fields timer n d username s =
    let only =
      dispatch-OnlyTrace (lit "reconnecting")
        (reconnecting_message s.reconnect_attempt (reconnect_delay s.reconnect_attempt n d))
        (record s { was_reconnecting = true }) in
    (
      refl,
      ap (λ k. k.reconnect_attempt) only,
      ap (λ k. k.reconnect_token) only,
      ap (λ k. k.connect_generation) only,
    )

-- One reconnection up to the opened socket.
reopened_fields :
    (ready : ℕ → ReadyState) (username : Text) (s : ChatApi)
    → let gen = s.connect_generation + 1 in
      let t = on_open ready gen username s.reconnect_token (on_reconnect_timer username s) in
      (t.pending_join ≡ some gen)
      × (t.reconnect_username ≡ some username)
      × (t.reconnect_attempt ≡ 0)
      × (t.connect_generation ≡ gen)
unfolding on_open on_reconnect_timer connect close_ws send
reopened_fields ready username s = ground arith

-- The due reconnection of `s`, up to the close after the server's refusal.
unfoldable pub refused_cycle : (ℕ → ReadyState) → ℕ → ℕ → ℕ → Text → Fields → ChatApi → ChatApi
refused_cycle ready timer n d username data' s =
    let gen = s.connect_generation + 1 in
    let opened = on_open ready gen username s.reconnect_token (on_reconnect_timer username s) in
    on_close timer n d gen (on_message ready gen (some data') opened)

-- However many attempts have been made, a reconnection under a name that is not empty which opens
-- its socket and is refused with an `error` frame leads to the next one: after the close its timer
-- runs and the count of attempts is 0.
pub refused_join_repeats :
    (ready : ℕ → ReadyState) (timer n d c : ℕ) (cs : Text) (data' : Fields) (s : ChatApi)
    → is_type (lit "error") data' ≡ true
    → let t = refused_cycle ready timer n d (c ∷ cs) data' s in
      (t.reconnect_timer ≡ some timer)
      × (t.reconnect_attempt ≡ 0)
      × (t.connect_generation ≡ s.connect_generation + 1)
unfolding refused_cycle
refused_join_repeats ready timer n d c cs data' s h =
    let gen = s.connect_generation + 1 in
    let opened = on_open ready gen (c ∷ cs) s.reconnect_token (on_reconnect_timer (c ∷ cs) s) in
    let (j, u, a, g) = reopened_fields ready (c ∷ cs) s in
    let refused = on_message ready gen (some data') opened in
    let next : on_close timer n d gen refused ≡ schedule_reconnect timer n d (c ∷ cs) refused =
      subst
        (λ k.
          on_close timer n d k (on_message ready k (some data') opened)
          ≡ schedule_reconnect timer n d (c ∷ cs) (on_message ready k (some data') opened))
        g (refused_join_reconnects ready timer n d gen c cs data' opened j u (omega arith) h).1 in
    let (timer_runs, attempt, _, generation) =
      schedule_reconnect_fields timer n d (c ∷ cs) refused in
    let (attempt', generation') = refused_join_fields ready gen gen data' opened (sym g) j h in
    subst
      (λ t.
        (t.reconnect_timer ≡ some timer) × (t.reconnect_attempt ≡ 0) × (t.connect_generation ≡ gen))
      (sym next) (timer_runs, attempt ∙ attempt' ∙ a, generation ∙ generation' ∙ g)
