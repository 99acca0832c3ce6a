-- ===== src/ChatApi/Socket.antt =====
-- The methods of ChatAPI and the callbacks of its socket and timers.
use token_dance_chat.Base.{
  ℕ, ◌+◌, Bool, true, false, not, ◌&&◌, ◌||◌, List, [], ◌∷◌, ◌++◌, Option, none, some, Text, lit,
  length, drop, lookup, insert, ltb, leb, eqb, if◌then◌else◌,
}
use mathlib.Core.Option.{get_or}
use token_dance_chat.Wire.{str, num, Fields, end, field, get, type_of, is_type, message}
use token_dance_chat.ChatApi.{
  ReadyState, open_state, Reason, timed_out, connection_closed, cannot_connect, kicked_by_login,
  server_error, opens, closes, sends, starts_timeout, clears_timeout, resolves, rejects, calls,
  starts_reconnect, clears_reconnect, warns, ChatApi, max_reconnect_attempts, max_queue, emit,
  is_some,
}
use token_dance_chat.ChatApi.Backoff.{reconnect_delay}

-- `this.ws?.close()`
unfoldable pub close_ws : ChatApi → ChatApi
close_ws s = elim s.ws [ none ↦ s | some h ↦ emit (closes h) s ]

-- `connect(username, token)`, up to the return of the promise.
unfoldable pub connect : Text → Option Text → ChatApi → ChatApi
connect username token s =
    let gen = s.connect_generation + 1 in
    let t = close_ws s in
    record t {
      outbound_queue = [];
      connect_generation = gen;
      reconnect_username = some username;
      reconnect_token = token;
      pending_join = some gen;
      ws = some gen;
      trace = starts_timeout gen ∷ opens gen ∷ t.trace;
    }

-- `this.pendingJoin.reject(…); this.pendingJoin = null` where a join is pending.
unfoldable pub reject_pending : Reason → ChatApi → ChatApi
reject_pending reason s = elim s.pending_join [
  | none ↦ s
  | some p ↦ record s { pending_join = none; trace = rejects p reason ∷ s.trace }
]

-- The callbacks return at once where their `connect` is not the latest.
abbrev pub current : ℕ → ChatApi → Bool
current gen s = eqb gen s.connect_generation

-- The callback of the 15 s timeout.
unfoldable pub on_timeout : ℕ → ChatApi → ChatApi
on_timeout gen s = if current gen s then close_ws (reject_pending timed_out s) else s

-- Whether the socket is open, by the browser's `readyState`.
unfoldable pub is_open : (ℕ → ReadyState) → ChatApi → Bool
is_open ready s = elim s.ws [
  | none ↦ false
  | some h ↦ elim (ready h) [ open_state ↦ true | _ ↦ false ]
]

abbrev pub transmit : Fields → ChatApi → ChatApi
transmit data' s = elim s.ws [ none ↦ s | some h ↦ emit (sends h data') s ]

-- `push`, then `shift` if there are more than 100.
unfoldable pub enqueue : Fields → List Fields → List Fields
enqueue data' queue =
    let longer = queue ++ data' ∷ [] in
    if ltb max_queue (length longer) then drop 1 longer else longer

unfoldable pub send : (ℕ → ReadyState) → Fields → ChatApi → ChatApi
send ready data' s =
    if is_open ready s && (not (is_some s.pending_join) || is_type (lit "join") data')
    then transmit data' s
    else if is_type (lit "join") data'
    then s
    else record s { outbound_queue = enqueue data' s.outbound_queue }

unfoldable pub transmit_all : List Fields → ChatApi → ChatApi
transmit_all [] s = s
transmit_all (item ∷ queued) s = transmit_all queued (transmit item s)

unfoldable pub flush_outbound_queue : (ℕ → ReadyState) → ChatApi → ChatApi
flush_outbound_queue ready s =
    if not (is_open ready s) || is_some s.pending_join
    then s
    else transmit_all s.outbound_queue (record s { outbound_queue = [] })

-- `if (token) joinMsg.token = token`
unfoldable pub join_message : Text → Option Text → Fields
join_message username none = message (lit "join") (field (lit "username") (str username) end)
join_message username (some []) = message (lit "join") (field (lit "username") (str username) end)
join_message username (some (c ∷ cs)) =
    message (lit "join")
      (field (lit "username") (str username) (field (lit "token") (str (c ∷ cs)) end))

-- `onopen` of the socket that `connect(username, token)` made.
unfoldable pub on_open : (ℕ → ReadyState) → ℕ → Text → Option Text → ChatApi → ChatApi
on_open ready gen username token s =
    let t = emit (clears_timeout gen) s in
    if current gen s
    then if is_some s.pending_join
      then send ready (join_message username token) (record t { reconnect_attempt = 0 })
      else t
    else s

abbrev pub call_each : List ℕ → Fields → ChatApi → ChatApi
call_each [] data' s = s
call_each (h ∷ hs) data' s = call_each hs data' (emit (calls h data') s)

-- `dispatch(event, data)`; a handler that throws does not stop the others.
unfoldable pub dispatch : Text → Fields → ChatApi → ChatApi
dispatch event data' s = elim (lookup event s.handlers) [
  | none ↦ s
  | some hs ↦ call_each hs data' s
]

-- The two calls at the end of `onmessage`.
unfoldable pub dispatch_both : Fields → ChatApi → ChatApi
dispatch_both data' s =
    dispatch (lit "*") data'
      (elim (type_of data') [ none ↦ s | some event ↦ dispatch event data' s ])

-- A kick while connected: no reconnection.
unfoldable pub forget_session : ChatApi → ChatApi
forget_session s = record s {
  reconnect_username = none;
  reconnect_token = none;
  was_reconnecting = false;
}

-- `history` while a join is pending: the join is done and the queue leaves.
unfoldable pub join_done : (ℕ → ReadyState) → ℕ → ℕ → ChatApi → ChatApi
join_done ready gen p s =
    let t =
      flush_outbound_queue ready
        (record s { pending_join = none; trace = resolves p ∷ clears_timeout gen ∷ s.trace }) in
    if t.was_reconnecting
    then dispatch (lit "reconnected") (message (lit "reconnected") end)
        (record t { was_reconnecting = false })
    else t

unfoldable pub confirm_join : (ℕ → ReadyState) → ℕ → Option ℕ → ChatApi → ChatApi
confirm_join ready gen none s = s
confirm_join ready gen (some p) s = join_done ready gen p s

-- A frame that does not end the join in failure.
unfoldable pub ordinary_frame : (ℕ → ReadyState) → ℕ → Fields → ChatApi → ChatApi
ordinary_frame ready gen data' s =
    dispatch_both data'
      (if is_type (lit "history") data' then confirm_join ready gen s.pending_join s else s)

-- A frame that parses, of the latest connection.
unfoldable pub on_frame : (ℕ → ReadyState) → ℕ → Fields → ChatApi → ChatApi
on_frame ready gen data' s =
    let joining = is_some s.pending_join in
    let kicked = is_type (lit "kicked") data' in
    if is_type (lit "error") data' && joining
    then close_ws
        (reject_pending (server_error (get (lit "content") data')) (emit (clears_timeout gen) s))
    else if kicked && joining
    then reject_pending kicked_by_login (emit (clears_timeout gen) s)
    else ordinary_frame ready gen data' (if kicked then forget_session s else s)

-- `onmessage`; `none` is a text that does not parse as an object.
unfoldable pub on_message : (ℕ → ReadyState) → ℕ → Option Fields → ChatApi → ChatApi
on_message ready gen none s = if current gen s then emit warns s else s
on_message ready gen (some data') s = if current gen s then on_frame ready gen data' s else s

abbrev pub reconnecting_message : ℕ → ℕ → Fields
reconnecting_message attempt delay =
    message (lit "reconnecting")
      (field (lit "attempt") (num attempt) (field (lit "delay") (num delay) end))

-- The last attempt has failed.
unfoldable pub give_up : ChatApi → ChatApi
give_up s =
    dispatch (lit "reconnect_failed")
      (message (lit "reconnect_failed") (field (lit "attempt") (num s.reconnect_attempt) end))
      (emit warns s)

-- The next attempt, after a delay by the random number n / d; `timer` is the id of its timer.
unfoldable pub schedule_reconnect : ℕ → ℕ → ℕ → Text → ChatApi → ChatApi
schedule_reconnect timer n d username s =
    let delay = reconnect_delay s.reconnect_attempt n d in
    let t =
      dispatch (lit "reconnecting") (reconnecting_message s.reconnect_attempt delay)
        (record s { was_reconnecting = true }) in
    record t {
      reconnect_timer = some timer;
      trace = starts_reconnect timer delay username ∷ t.trace;
    }

-- `attemptReconnect`, for the name to reconnect as.
unfoldable pub reconnect_as : ℕ → ℕ → ℕ → Option Text → ChatApi → ChatApi
reconnect_as timer n d none s = s
reconnect_as timer n d (some []) s = s
reconnect_as timer n d (some (c ∷ cs)) s =
    if leb max_reconnect_attempts s.reconnect_attempt
    then give_up s
    else schedule_reconnect timer n d (c ∷ cs) s

abbrev pub attempt_reconnect : ℕ → ℕ → ℕ → ChatApi → ChatApi
attempt_reconnect timer n d s = reconnect_as timer n d s.reconnect_username s

-- The callback of the reconnection timer, for the name that it was started with.
unfoldable pub on_reconnect_timer : Text → ChatApi → ChatApi
on_reconnect_timer username s =
    connect username s.reconnect_token (record s { reconnect_attempt = s.reconnect_attempt + 1 })

-- `onclose`
unfoldable pub on_close : ℕ → ℕ → ℕ → ℕ → ChatApi → ChatApi
on_close timer n d gen s =
    if current gen s
    then if is_some s.pending_join
      then reject_pending connection_closed (emit (clears_timeout gen) s)
      else attempt_reconnect timer n d s
    else s

-- `onerror`
unfoldable pub on_error : ℕ → ChatApi → ChatApi
on_error gen s =
    if current gen s && is_some s.pending_join
    then reject_pending cannot_connect (emit (clears_timeout gen) s)
    else s

-- `disconnect()`
unfoldable pub disconnect : ChatApi → ChatApi
disconnect s =
    let t = record s {
      connect_generation = s.connect_generation + 1;
      was_reconnecting = false;
      reconnect_username = none;
      reconnect_token = none;
      pending_join = none;
      outbound_queue = [];
      reconnect_timer = none;
      trace = elim s.reconnect_timer [
        | none ↦ s.trace
        | some timer ↦ clears_reconnect timer ∷ s.trace
      ];
    } in
    record (close_ws t) { ws = none }

abbrev pub has_handler : ℕ → List ℕ → Bool
has_handler h [] = false
has_handler h (k ∷ ks) = eqb h k || has_handler h ks

abbrev pub without_handler : ℕ → List ℕ → List ℕ
without_handler h [] = []
without_handler h (k ∷ ks) = if eqb h k then without_handler h ks else k ∷ without_handler h ks

-- `on(event, handler)`: the set of an event holds a handler once.
unfoldable pub on : Text → ℕ → ChatApi → ChatApi
on event h s =
    let hs = get_or (lookup event s.handlers) [] in
    record s { handlers = insert event (if has_handler h hs then hs else hs ++ h ∷ []) s.handlers }

-- The function that `on` returns.
unfoldable pub off : Text → ℕ → ChatApi → ChatApi
off event h s = elim (lookup event s.handlers) [
  | none ↦ s
  | some hs ↦ record s { handlers = insert event (without_handler h hs) s.handlers }
]
