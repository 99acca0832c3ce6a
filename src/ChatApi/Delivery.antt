-- ===== src/ChatApi/Delivery.antt =====
-- What reaches the server, and in which order.
use mathlib.Core.List.{append_assoc, append-nil}
use token_dance_chat.Base.{
  ℕ, ◌+◌, ◌≡◌, refl, sym, ap, ◌∙◌, true, false, List, [], ◌∷◌, ◌++◌, none, some, arith, Text, lit,
  Bool-cases, inl, inr, lookup, Option-cases,
}
use token_dance_chat.Wire.{Fields, end, message, is_type}
use token_dance_chat.ChatApi.{
  ReadyState, Effect, sends, clears_timeout, resolves, calls, ChatApi, emit,
}
use token_dance_chat.ChatApi.Socket.{
  is_open, transmit, enqueue, send, transmit_all, flush_outbound_queue, join_done, call_each,
  dispatch,
}
use token_dance_chat.ChatApi.Keeps.{settled, transmit_all-Keeps, dispatch-Keeps, flush-Keeps}

-- The frames sent so far, the oldest first.
unfoldable pub sent : List Effect → List Fields
sent [] = []
sent (sends h data' ∷ es) = sent es ++ data' ∷ []
sent (_ ∷ es) = sent es

call_each-sent :
    (hs : List ℕ) (data' : Fields) (s : ChatApi) → sent (call_each hs data' s).trace ≡ sent s.trace
unfolding sent
call_each-sent [] data' s = refl
call_each-sent (h ∷ hs) data' s = call_each-sent hs data' (emit (calls h data') s)

pub dispatch-sent :
    (event : Text) (data' : Fields) (s : ChatApi)
    → sent (dispatch event data' s).trace ≡ sent s.trace
unfolding dispatch
dispatch-sent event data' s = elim (Option-cases (lookup event s.handlers)) [
  | inl e ↦ rw (e, dispatch) refl
  | inr (hs, e) ↦ rw (e, dispatch) (call_each-sent hs data' s)
]

pub transmit-sent :
    (h : ℕ) (data' : Fields) (s : ChatApi)
    → s.ws ≡ some h
    → (sent (transmit data' s).trace ≡ sent s.trace ++ data' ∷ [])
      × ((transmit data' s).ws ≡ some h)
unfolding sent
transmit-sent h data' s e = ground arith

transmit_all-sent :
    (h : ℕ) (queue : List Fields) (s : ChatApi)
    → s.ws ≡ some h
    → sent (transmit_all queue s).trace ≡ sent s.trace ++ queue
unfolding transmit_all
transmit_all-sent h [] s e = sym (append-nil _)
transmit_all-sent h (d ∷ ds) s e =
    let (one, same) = transmit-sent h d s e in
    transmit_all-sent h ds (transmit d s) same
    ∙ ap (λ x. x ++ ds) one
    ∙ append_assoc (sent s.trace) (d ∷ []) ds

pub is_open-ws :
    (ready : ℕ → ReadyState) (s : ChatApi) → is_open ready s ≡ true → (h : ℕ) × (s.ws ≡ some h)
unfolding is_open
is_open-ws ready s e = elim (Option-cases s.ws) [
  | inl none_there ↦ absurd (ground arith)
  | inr found ↦ found
]

flush-sent :
    (ready : ℕ → ReadyState) (s : ChatApi)
    → is_open ready s ≡ true
    → s.pending_join ≡ none
    → (sent (flush_outbound_queue ready s).trace ≡ sent s.trace ++ s.outbound_queue)
      × ((flush_outbound_queue ready s).outbound_queue ≡ [])
      × ((flush_outbound_queue ready s).pending_join ≡ none)
unfolding flush_outbound_queue
flush-sent ready s o j =
    let (h, at) = is_open-ws ready s o in
    let t = record s { outbound_queue = [] } in
    let k = transmit_all-Keeps 0 s.outbound_queue t in
    ground (arith, transmit_all-sent h s.outbound_queue t at)

settled-resolves :
    (p gen : ℕ) (es : List Effect)
    → settled p (resolves p ∷ clears_timeout gen ∷ es) ≡ settled p es + 1
unfolding settled
settled-resolves p gen es = ground arith

-- The end of a join on an open socket: everything that waited leaves at once, in the order in which
-- it was sent, behind all that left before; nothing waits any more, no join is pending, and the
-- promise is settled once more than before.
pub join_done_delivers :
    (ready : ℕ → ReadyState) (gen p : ℕ) (s : ChatApi)
    → is_open ready s ≡ true
    → let t = join_done ready gen p s in
      (sent t.trace ≡ sent s.trace ++ s.outbound_queue)
      × (t.outbound_queue ≡ [])
      × (t.pending_join ≡ none)
      × (settled p t.trace ≡ settled p s.trace + 1)
unfolding join_done is_open sent
join_done_delivers ready gen p s o =
    let u = record s { pending_join = none; trace = resolves p ∷ clears_timeout gen ∷ s.trace } in
    let t = flush_outbound_queue ready u in
    let (delivered, empty, free) = flush-sent ready u o refl in
    let (_, _, settles) = flush-Keeps p ready u in
    let v = record t { was_reconnecting = false } in
    let k = dispatch-Keeps p (lit "reconnected") (message (lit "reconnected") end) v in
    let quiet = dispatch-sent (lit "reconnected") (message (lit "reconnected") end) v in
    elim (Bool-cases t.was_reconnecting) [
      | inl again ↦ rw again (
        quiet ∙ delivered,
        k.queue ∙ empty,
        k.pending ∙ free,
        k.settlement ∙ settles ∙ settled-resolves p gen s.trace,
      )
      | inr first ↦ rw first (delivered, empty, free, settles ∙ settled-resolves p gen s.trace)
    ]

-- A frame that is not a join and is sent while the socket is not open does not leave: it is put at
-- the end of the queue.
pub send_held :
    (ready : ℕ → ReadyState) (data' : Fields) (s : ChatApi)
    → is_open ready s ≡ false
    → is_type (lit "join") data' ≡ false
    → (sent (send ready data' s).trace ≡ sent s.trace)
      × ((send ready data' s).outbound_queue ≡ enqueue data' s.outbound_queue)
unfolding send
send_held ready data' s o j = ground arith
