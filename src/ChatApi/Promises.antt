-- ===== src/ChatApi/Promises.antt =====
-- The promises that `connect` returns.
use token_dance_chat.Base.{
  ℕ, ◌≤◌, ◌<◌, ◌≡◌, refl, sym, subst₂, ◌∙◌, Bool, ◌&&◌, true, false, List, [], ◌∷◌, Option, none,
  some, arith, Text, lit, if◌then◌else◌,
}
use token_dance_chat.Wire.{Fields, end, get, message, is_type}
use token_dance_chat.ChatApi.{
  ReadyState, ChatApi, Reason, timed_out, connection_closed, cannot_connect, kicked_by_login,
  server_error, init, emit, is_some, clears_timeout, resolves,
}
use token_dance_chat.ChatApi.Keeps.{
  settled, Keeps, close_ws-Keeps, dispatch-Keeps, dispatch_both-Keeps, reconnect_as-Keeps,
  send-settled, flush-Keeps,
}
use token_dance_chat.ChatApi.Socket.{
  close_ws, connect, reject_pending, on_open, on_message, on_frame, ordinary_frame, current,
  on_close, on_error, on_timeout, on_reconnect_timer, send, disconnect, on, off, join_done,
  confirm_join, forget_session, join_message, flush_outbound_queue, dispatch,
}
use token_dance_chat.ChatApi.Steps.{
  Event, connects, sends_data, disconnects, subscribes, unsubscribes, socket_opens, socket_receives,
  socket_closes, socket_fails, timeout_expires, reconnect_fires, step, run,
}

abbrev Born : Option ℕ → ℕ → Type 0
Born none generation = Unit
Born (some q) generation = q ≤ generation

-- The promise `p` is settled at most once: not while its join is pending, and not before it exists.
pub record Once (p : ℕ) (s : ChatApi) : Type 0 where
  pub once : settled p s.trace ≤ 1
  pub unborn : s.connect_generation < p → settled p s.trace ≡ 0
  pub open_join : s.pending_join ≡ some p → settled p s.trace ≡ 0
  pub born : Born s.pending_join s.connect_generation

module _ (p : ℕ) where
  -- A step that settles nothing and keeps the join.
  Same-Once :
      (s t : ChatApi)
      → t.connect_generation ≡ s.connect_generation
      → t.pending_join ≡ s.pending_join
      → settled p t.trace ≡ settled p s.trace
      → Once p s
      → Once p t
  Same-Once s t g j e h = record {
    once = omega arith;
    unborn = λ b. e ∙ h.unborn (omega arith);
    open_join = λ k. e ∙ h.open_join (sym j ∙ k);
    born = subst₂ Born (sym j) (sym g) h.born;
  }

  Keeps-Once : (s t : ChatApi) → Keeps p s t → Once p s → Once p t
  Keeps-Once s t k = Same-Once s t k.generation k.pending k.settlement

  reject_pending-Once :
      (reason : Reason) (s : ChatApi) → Once p s → Once p (reject_pending reason s)
  unfolding reject_pending settled
  reject_pending-Once reason s h = ground arith

  connect-Once :
      (username : Text) (token : Option Text) (s : ChatApi)
      → Once p s
      → Once p (connect username token s)
  unfolding connect settled
  connect-Once username token s h = ground (arith, close_ws-Keeps p s)

  disconnect-Once : (s : ChatApi) → Once p s → Once p (disconnect s)
  unfolding disconnect settled close_ws
  disconnect-Once s h = ground arith

  on_timeout-Once : (gen : ℕ) (s : ChatApi) → Once p s → Once p (on_timeout gen s)
  unfolding on_timeout
  on_timeout-Once gen s h = ground (
    arith,
    Keeps-Once (reject_pending timed_out s) (close_ws (reject_pending timed_out s))
        (close_ws-Keeps p (reject_pending timed_out s)) (reject_pending-Once timed_out s h),
  )

  quiet-Once : (gen : ℕ) (s : ChatApi) → Once p s → Once p (emit (clears_timeout gen) s)
  unfolding settled
  quiet-Once gen s h = ground arith

  send-Once :
      (ready : ℕ → ReadyState) (data' : Fields) (s : ChatApi)
      → Once p s
      → Once p (send ready data' s)
  send-Once ready data' s h =
      let (g, j, e) = send-settled p ready data' s in Same-Once s (send ready data' s) g j e h

  on_open-Once :
      (ready : ℕ → ReadyState) (gen : ℕ) (username : Text) (token : Option Text) (s : ChatApi)
      → Once p s
      → Once p (on_open ready gen username token s)
  unfolding on_open
  on_open-Once ready gen username token s h =
      let t = record (emit (clears_timeout gen) s) { reconnect_attempt = 0 } in
      let q : Once p (emit (clears_timeout gen) s) = quiet-Once gen s h in
      let q' : Once p t = Same-Once (emit (clears_timeout gen) s) t refl refl refl q in
      ground (arith, send-Once ready (join_message username token) t q')

  join_done-Once :
      (ready : ℕ → ReadyState) (gen q : ℕ) (s : ChatApi)
      → s.pending_join ≡ some q
      → Once p s
      → Once p (join_done ready gen q s)
  unfolding join_done settled
  join_done-Once ready gen q s e h =
      let u = record s { pending_join = none; trace = resolves q ∷ clears_timeout gen ∷ s.trace } in
      let resolved : Once p u = ground arith in
      let t = flush_outbound_queue ready u in
      let (g, j, k) = flush-Keeps p ready u in
      let flushed : Once p t = Same-Once u t g j k resolved in
      let v = record t { was_reconnecting = false } in
      let quiet : Once p v = Same-Once t v refl refl refl flushed in
      ground (
        arith,
        Keeps-Once v (dispatch (lit "reconnected") (message (lit "reconnected") end) v)
            (dispatch-Keeps p (lit "reconnected") (message (lit "reconnected") end) v) quiet,
      )

  confirm_join-Once :
      (ready : ℕ → ReadyState) (gen : ℕ) (q : Option ℕ) (s : ChatApi)
      → s.pending_join ≡ q
      → Once p s
      → Once p (confirm_join ready gen q s)
  unfolding confirm_join
  confirm_join-Once ready gen none s e h = h
  confirm_join-Once ready gen (some q) s e h = join_done-Once ready gen q s e h

  -- A branch is safe if both its arms are.
  if-Once : (b : Bool) (s t : ChatApi) → Once p s → Once p t → Once p (if b then s else t)
  if-Once true s t h k = h
  if-Once false s t h k = k

  ordinary_frame-Once :
      (ready : ℕ → ReadyState) (gen : ℕ) (data' : Fields) (s : ChatApi)
      → Once p s
      → Once p (ordinary_frame ready gen data' s)
  unfolding ordinary_frame
  ordinary_frame-Once ready gen data' s h =
      Keeps-Once
        (if is_type (lit "history") data' then confirm_join ready gen s.pending_join s else s) _
        (dispatch_both-Keeps p data' _)
        (if-Once (is_type (lit "history") data') _ s
          (confirm_join-Once ready gen s.pending_join s refl h) h)

  forget_session-Once : (s : ChatApi) → Once p s → Once p (forget_session s)
  unfolding forget_session
  forget_session-Once s h = Same-Once s _ refl refl refl h

  on_frame-Once :
      (ready : ℕ → ReadyState) (gen : ℕ) (data' : Fields) (s : ChatApi)
      → Once p s
      → Once p (on_frame ready gen data' s)
  unfolding on_frame
  on_frame-Once ready gen data' s h =
      let c = emit (clears_timeout gen) s in
      let cleared : Once p c = quiet-Once gen s h in
      let reason = server_error (get (lit "content") data') in
      if-Once (is_type (lit "error") data' && is_some s.pending_join) _ _
        (Keeps-Once (reject_pending reason c) _ (close_ws-Keeps p (reject_pending reason c))
          (reject_pending-Once reason c cleared))
        (if-Once (is_type (lit "kicked") data' && is_some s.pending_join) _ _
          (reject_pending-Once kicked_by_login c cleared)
          (ordinary_frame-Once ready gen data' _ (
            if-Once (is_type (lit "kicked") data') (forget_session s) s (forget_session-Once s h)
              h)))

  on_message-Once :
      (ready : ℕ → ReadyState) (gen : ℕ) (frame : Option Fields) (s : ChatApi)
      → Once p s
      → Once p (on_message ready gen frame s)
  unfolding on_message settled
  on_message-Once ready gen none s h = ground arith
  on_message-Once ready gen (some data') s h =
      if-Once (current gen s) _ s (on_frame-Once ready gen data' s h) h

  on_close-Once : (timer n d gen : ℕ) (s : ChatApi) → Once p s → Once p (on_close timer n d gen s)
  unfolding on_close
  on_close-Once timer n d gen s h =
      if-Once (current gen s) _ s
        (if-Once (is_some s.pending_join) _ _
          (reject_pending-Once connection_closed _ (quiet-Once gen s h))
          (Keeps-Once s _ (reconnect_as-Keeps p timer n d s.reconnect_username s) h))
        h

  on_error-Once : (gen : ℕ) (s : ChatApi) → Once p s → Once p (on_error gen s)
  unfolding on_error
  on_error-Once gen s h =
      if-Once (current gen s && is_some s.pending_join) _ s
        (reject_pending-Once cannot_connect _ (quiet-Once gen s h)) h

  on_reconnect_timer-Once :
      (username : Text) (s : ChatApi) → Once p s → Once p (on_reconnect_timer username s)
  unfolding on_reconnect_timer
  on_reconnect_timer-Once username s h =
      connect-Once username s.reconnect_token _ (Same-Once s _ refl refl refl h)

  on-Once : (event : Text) (k : ℕ) (s : ChatApi) → Once p s → Once p (on event k s)
  unfolding on
  on-Once event k s h = Same-Once s _ refl refl refl h

  off-Once : (event : Text) (k : ℕ) (s : ChatApi) → Once p s → Once p (off event k s)
  unfolding off
  off-Once event k s h = ground arith

  -- Every event keeps it.
  step-Once :
      (ready : ℕ → ReadyState) (e : Event) (s : ChatApi) → Once p s → Once p (step ready e s)
  unfolding step
  step-Once ready (connects username token) s h = connect-Once username token s h
  step-Once ready (sends_data data') s h = send-Once ready data' s h
  step-Once ready disconnects s h = disconnect-Once s h
  step-Once ready (subscribes event k) s h = on-Once event k s h
  step-Once ready (unsubscribes event k) s h = off-Once event k s h
  step-Once ready (socket_opens gen username token) s h = on_open-Once ready gen username token s h
  step-Once ready (socket_receives gen frame) s h = on_message-Once ready gen frame s h
  step-Once ready (socket_closes timer n d gen) s h = on_close-Once timer n d gen s h
  step-Once ready (socket_fails gen) s h = on_error-Once gen s h
  step-Once ready (timeout_expires gen) s h = on_timeout-Once gen s h
  step-Once ready (reconnect_fires username) s h = on_reconnect_timer-Once username s h

  run-Once : (es : List ((ℕ → ReadyState) × Event)) (s : ChatApi) → Once p s → Once p (run es s)
  unfolding run
  run-Once [] s h = h
  run-Once ((ready, e) ∷ es) s h = run-Once es (step ready e s) (step-Once ready e s h)

  init-Once : Once p init
  unfolding init settled
  init-Once = ground arith

  -- From a new object, whatever the client calls and the browser reports in whatever order, the
  -- promise of a `connect` is resolved or rejected at most once.
  pub run-settles_once : (es : List ((ℕ → ReadyState) × Event)) → settled p (run es init).trace ≤ 1
  run-settles_once es = (run-Once es init init-Once).once

  -- While the join of a `connect` is pending, its promise is neither resolved nor rejected.
  pub run-unsettled_while_pending :
      (es : List ((ℕ → ReadyState) × Event))
      → (run es init).pending_join ≡ some p
      → settled p (run es init).trace ≡ 0
  run-unsettled_while_pending es = (run-Once es init init-Once).open_join
