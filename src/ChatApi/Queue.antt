-- ===== src/ChatApi/Queue.antt =====
-- Messages that wait for a connection.
use token_dance_chat.Base.{
  ℕ, ◌+◌, ◌≤◌, ◌≡◌, sym, subst, inl, inr, Bool, true, false, not, ◌&&◌, ◌||◌, List, [], ◌∷◌, ◌++◌,
  Option, none, some, arith, Text, lit, length, length-append, length-drop, All, All-append,
  All-drop, ltb, if◌then◌else◌, Bool-cases, Option-cases,
}
use token_dance_chat.Wire.{Fields, is_type}
use token_dance_chat.ChatApi.{
  ReadyState, resolves, clears_timeout, Reason, timed_out, connection_closed, cannot_connect, init,
  ChatApi, max_queue, emit, is_some,
}
use token_dance_chat.ChatApi.Socket.{
  is_open, enqueue, send, flush_outbound_queue, reject_pending, close_ws, connect, disconnect, on,
  off, on_message, on_close, on_error, on_timeout, on_reconnect_timer, on_open, join_message,
  join_done, confirm_join, ordinary_frame, on_frame, forget_session, current,
}
use token_dance_chat.ChatApi.Steps.{
  Event, connects, sends_data, disconnects, subscribes, unsubscribes, socket_opens, socket_receives,
  socket_closes, socket_fails, timeout_expires, reconnect_fires, step, run,
}
use token_dance_chat.ChatApi.Keeps.{
  Keeps, transmit-Keeps, transmit_all-Keeps, close_ws-Keeps, dispatch-Keeps, dispatch_both-Keeps,
  reconnect_as-Keeps,
}

-- The queue is bounded, and holds no join.
pub record IsQueue (queue : List Fields) : Type 0 where
  pub bounded : length queue ≤ max_queue
  pub no_join : All (λ d. is_type (lit "join") d ≡ false) queue

enqueue-IsQueue :
    (data' : Fields) (queue : List Fields)
    → is_type (lit "join") data' ≡ false
    → IsQueue queue
    → IsQueue (enqueue data' queue)
unfolding enqueue
enqueue-IsQueue data' queue j q =
    let longer = queue ++ data' ∷ [] in
    let clean : All (λ d. is_type (lit "join") d ≡ false) longer =
      All-append _ queue (data' ∷ []) q.no_join (j, tt) in
    let size : length longer ≡ length queue + 1 = length-append queue (data' ∷ []) in
    elim (Bool-cases (ltb max_queue (length longer))) [
      | inl over ↦ rw over (record {
        bounded = omega (arith, length-drop 1 longer, q.bounded);
        no_join = All-drop _ 1 longer clean;
      })
      | inr fits ↦ rw fits (record { bounded = ground arith; no_join = clean })
    ]

-- The queue that an operation leaves is the old one, or is empty, or is a good one.
if-IsQueue :
    (b : Bool) (s t : ChatApi)
    → IsQueue s.outbound_queue
    → IsQueue t.outbound_queue
    → IsQueue (if b then s else t).outbound_queue
if-IsQueue true s t h k = h
if-IsQueue false s t h k = k

Keeps-IsQueue : (s t : ChatApi) → Keeps 0 s t → IsQueue s.outbound_queue → IsQueue t.outbound_queue
Keeps-IsQueue s t k h = subst IsQueue (sym k.queue) h

empty-IsQueue : IsQueue []
empty-IsQueue = record { bounded = omega arith; no_join = tt }

send-IsQueue :
    (ready : ℕ → ReadyState) (data' : Fields) (s : ChatApi)
    → IsQueue s.outbound_queue
    → IsQueue (send ready data' s).outbound_queue
unfolding send
send-IsQueue ready data' s h =
    if-IsQueue (is_open ready s && (not (is_some s.pending_join) || is_type (lit "join") data')) _ _
      (Keeps-IsQueue s _ (transmit-Keeps 0 data' s) h)
      (elim (Bool-cases (is_type (lit "join") data')) [
        | inl join ↦ rw join h
        | inr other ↦ rw other (enqueue-IsQueue data' s.outbound_queue other h)
      ])

flush-IsQueue :
    (ready : ℕ → ReadyState) (s : ChatApi)
    → IsQueue s.outbound_queue
    → IsQueue (flush_outbound_queue ready s).outbound_queue
unfolding flush_outbound_queue
flush-IsQueue ready s h = if-IsQueue (not (is_open ready s) || is_some s.pending_join) s _ h (
    Keeps-IsQueue (record s { outbound_queue = [] }) _
      (transmit_all-Keeps 0 s.outbound_queue (record s { outbound_queue = [] })) empty-IsQueue)

refuse-IsQueue :
    (reason : Reason) (s : ChatApi)
    → IsQueue s.outbound_queue
    → IsQueue (reject_pending reason s).outbound_queue
unfolding reject_pending
refuse-IsQueue reason s h = elim (Option-cases s.pending_join) [
  | inl e ↦ subst IsQueue (ground arith) h
  | inr (p, e) ↦ subst IsQueue (ground arith) h
]

closed-IsQueue : (s : ChatApi) → IsQueue s.outbound_queue → IsQueue (close_ws s).outbound_queue
closed-IsQueue s = Keeps-IsQueue s _ (close_ws-Keeps 0 s)

on_open-IsQueue :
    (ready : ℕ → ReadyState) (gen : ℕ) (username : Text) (token : Option Text) (s : ChatApi)
    → IsQueue s.outbound_queue
    → IsQueue (on_open ready gen username token s).outbound_queue
unfolding on_open
on_open-IsQueue ready gen username token s h =
    if-IsQueue (current gen s) _ s
      (if-IsQueue (is_some s.pending_join) _ _
        (send-IsQueue ready (join_message username token) _ h) h)
      h

confirm_join-IsQueue :
    (ready : ℕ → ReadyState) (gen : ℕ) (q : Option ℕ) (s : ChatApi)
    → IsQueue s.outbound_queue
    → IsQueue (confirm_join ready gen q s).outbound_queue
unfolding confirm_join join_done
confirm_join-IsQueue ready gen none s h = h
confirm_join-IsQueue ready gen (some p) s h =
    let u = record s { pending_join = none; trace = resolves p ∷ clears_timeout gen ∷ s.trace } in
    let t = flush_outbound_queue ready u in
    let flushed : IsQueue t.outbound_queue = flush-IsQueue ready u h in
    if-IsQueue t.was_reconnecting _ t
      (Keeps-IsQueue (record t { was_reconnecting = false }) _
        (dispatch-Keeps 0 _ _ (record t { was_reconnecting = false })) flushed)
      flushed

on_frame-IsQueue :
    (ready : ℕ → ReadyState) (gen : ℕ) (data' : Fields) (s : ChatApi)
    → IsQueue s.outbound_queue
    → IsQueue (on_frame ready gen data' s).outbound_queue
unfolding on_frame ordinary_frame forget_session
on_frame-IsQueue ready gen data' s h =
    let k = if is_type (lit "kicked") data' then forget_session s else s in
    let kept : IsQueue k.outbound_queue = if-IsQueue (is_type (lit "kicked") data') _ s h h in
    let ordinary : IsQueue (ordinary_frame ready gen data' k).outbound_queue =
      Keeps-IsQueue _ _ (dispatch_both-Keeps 0 data' _) (
        if-IsQueue (is_type (lit "history") data') (confirm_join ready gen k.pending_join k) k
          (confirm_join-IsQueue ready gen k.pending_join k kept) kept) in
    if-IsQueue (is_type (lit "error") data' && is_some s.pending_join) _ _
      (closed-IsQueue _ (refuse-IsQueue _ (emit (clears_timeout gen) s) h))
      (if-IsQueue (is_type (lit "kicked") data' && is_some s.pending_join) _ _
        (refuse-IsQueue _ (emit (clears_timeout gen) s) h) ordinary)

off-queue : (event : Text) (k : ℕ) (s : ChatApi) → (off event k s).outbound_queue ≡ s.outbound_queue
unfolding off
off-queue event k s = ground arith

step-IsQueue :
    (ready : ℕ → ReadyState) (e : Event) (s : ChatApi)
    → IsQueue s.outbound_queue
    → IsQueue (step ready e s).outbound_queue
unfolding step connect disconnect on on_message on_close on_error on_timeout on_reconnect_timer
step-IsQueue ready (connects username token) s h = empty-IsQueue
step-IsQueue ready (sends_data data') s h = send-IsQueue ready data' s h
step-IsQueue ready disconnects s h = closed-IsQueue _ empty-IsQueue
step-IsQueue ready (subscribes event k) s h = h
step-IsQueue ready (unsubscribes event k) s h = subst IsQueue (sym (off-queue event k s)) h
step-IsQueue ready (socket_opens gen username token) s h =
    on_open-IsQueue ready gen username token s h
step-IsQueue ready (socket_receives gen none) s h = if-IsQueue (current gen s) _ s h h
step-IsQueue ready (socket_receives gen (some data')) s h =
    if-IsQueue (current gen s) _ s (on_frame-IsQueue ready gen data' s h) h
step-IsQueue ready (socket_closes timer n d gen) s h =
    if-IsQueue (current gen s) _ s
      (if-IsQueue (is_some s.pending_join) _ _
        (refuse-IsQueue connection_closed (emit (clears_timeout gen) s) h)
        (Keeps-IsQueue s _ (reconnect_as-Keeps 0 timer n d s.reconnect_username s) h))
      h
step-IsQueue ready (socket_fails gen) s h =
    if-IsQueue (current gen s && is_some s.pending_join) _ s
      (refuse-IsQueue cannot_connect (emit (clears_timeout gen) s) h) h
step-IsQueue ready (timeout_expires gen) s h =
    if-IsQueue (current gen s) _ s (closed-IsQueue _ (refuse-IsQueue timed_out s h)) h
step-IsQueue ready (reconnect_fires username) s h = empty-IsQueue

run-IsQueue :
    (es : List ((ℕ → ReadyState) × Event)) (s : ChatApi)
    → IsQueue s.outbound_queue
    → IsQueue (run es s).outbound_queue
unfolding run
run-IsQueue [] s h = h
run-IsQueue ((ready, e) ∷ es) s h = run-IsQueue es (step ready e s) (step-IsQueue ready e s h)

-- Whatever happens to a new object, at most 100 messages wait, and none of them is a join.
pub run-init-IsQueue : (es : List ((ℕ → ReadyState) × Event)) → IsQueue (run es init).outbound_queue
unfolding init
run-init-IsQueue es = run-IsQueue es init empty-IsQueue
