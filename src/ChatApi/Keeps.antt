-- ===== src/ChatApi/Keeps.antt =====
-- What the helpers of the class leave alone.
use token_dance_chat.Base.{
  ℕ, ◌+◌, ◌≡◌, refl, ap, ◌∙◌, true, List, [], ◌∷◌, Option, none, some, arith, Text, lookup,
  Option-cases, Bool-cases, leb, lit, inl, inr, eqb, if◌then◌else◌,
}
use token_dance_chat.Wire.{Fields, type_of}
use token_dance_chat.ChatApi.{
  ReadyState, Effect, resolves, rejects, calls, warns, ChatApi, emit, max_reconnect_attempts,
}
use token_dance_chat.ChatApi.Socket.{
  close_ws, transmit, transmit_all, call_each, dispatch, dispatch_both, reconnect_as, send,
  flush_outbound_queue, give_up, schedule_reconnect, reconnecting_message,
}
use token_dance_chat.ChatApi.Backoff.{reconnect_delay}

-- How often the promise `p` has been settled.
unfoldable pub settled : ℕ → List Effect → ℕ
settled p [] = 0
settled p (resolves q ∷ es) = if eqb p q then settled p es + 1 else settled p es
settled p (rejects q reason ∷ es) = if eqb p q then settled p es + 1 else settled p es
settled p (_ ∷ es) = settled p es

-- The join, the queue and the settled promises are as before.
pub record Keeps (p : ℕ) (s t : ChatApi) : Type 0 where
  pub generation : t.connect_generation ≡ s.connect_generation
  pub pending : t.pending_join ≡ s.pending_join
  pub queue : t.outbound_queue ≡ s.outbound_queue
  pub settlement : settled p t.trace ≡ settled p s.trace

module _ (p : ℕ) where
  Keeps-refl : (s : ChatApi) → Keeps p s s
  Keeps-refl s = ground arith

  Keeps-trans : (s t u : ChatApi) → Keeps p s t → Keeps p t u → Keeps p s u
  Keeps-trans s t u h k = ground arith

  pub close_ws-Keeps : (s : ChatApi) → Keeps p s (close_ws s)
  unfolding close_ws settled
  close_ws-Keeps s = ground arith

  pub transmit-Keeps : (data' : Fields) (s : ChatApi) → Keeps p s (transmit data' s)
  unfolding settled
  transmit-Keeps data' s = ground arith

  pub transmit_all-Keeps : (queue : List Fields) (s : ChatApi) → Keeps p s (transmit_all queue s)
  unfolding transmit_all
  transmit_all-Keeps [] s = Keeps-refl s
  transmit_all-Keeps (d ∷ ds) s =
      Keeps-trans s _ _ (transmit-Keeps d s) (transmit_all-Keeps ds (transmit d s))

  pub call_each-Keeps :
      (hs : List ℕ) (data' : Fields) (s : ChatApi) → Keeps p s (call_each hs data' s)
  unfolding settled
  call_each-Keeps [] data' s = Keeps-refl s
  call_each-Keeps (h ∷ hs) data' s = Keeps-trans s _ _ (ground arith) (call_each-Keeps hs data' _)

  pub dispatch-Keeps :
      (event : Text) (data' : Fields) (s : ChatApi) → Keeps p s (dispatch event data' s)
  unfolding dispatch
  dispatch-Keeps event data' s = elim (Option-cases (lookup event s.handlers)) [
    | inl e ↦ rw (e, dispatch) (Keeps-refl s)
    | inr (hs, e) ↦ rw (e, dispatch) (call_each-Keeps hs data' s)
  ]

  pub dispatch_both-Keeps : (data' : Fields) (s : ChatApi) → Keeps p s (dispatch_both data' s)
  unfolding dispatch_both
  dispatch_both-Keeps data' s = elim (Option-cases (type_of data')) [
    | inl e ↦ rw e (dispatch-Keeps _ data' s)
    | inr (event, e) ↦
        rw e (Keeps-trans s _ _ (dispatch-Keeps event data' s) (dispatch-Keeps _ data' _))
  ]

  give_up-Keeps : (s : ChatApi) → Keeps p s (give_up s)
  unfolding give_up settled
  give_up-Keeps s =
      Keeps-trans s (emit warns s) _ (ground arith) (dispatch-Keeps _ _ (emit warns s))

  schedule_reconnect-Keeps :
      (timer n d : ℕ) (username : Text) (s : ChatApi)
      → Keeps p s (schedule_reconnect timer n d username s)
  unfolding schedule_reconnect settled
  schedule_reconnect-Keeps timer n d username s =
      let t = record s { was_reconnecting = true } in
      let k =
        dispatch-Keeps (lit "reconnecting")
          (reconnecting_message s.reconnect_attempt (reconnect_delay s.reconnect_attempt n d)) t in
      record {
        generation = k.generation;
        pending = k.pending;
        queue = k.queue;
        settlement = k.settlement;
      }

  pub reconnect_as-Keeps :
      (timer n d : ℕ) (username : Option Text) (s : ChatApi)
      → Keeps p s (reconnect_as timer n d username s)
  unfolding reconnect_as
  reconnect_as-Keeps timer n d none s = Keeps-refl s
  reconnect_as-Keeps timer n d (some []) s = Keeps-refl s
  reconnect_as-Keeps timer n d (some (c ∷ cs)) s =
      elim (Bool-cases (leb max_reconnect_attempts s.reconnect_attempt)) [
        | inl over ↦ rw over (give_up-Keeps s)
        | inr more ↦ rw more (schedule_reconnect-Keeps timer n d (c ∷ cs) s)
      ]

  -- A message that leaves, or waits, settles nothing.
  pub send-settled :
      (ready : ℕ → ReadyState) (data' : Fields) (s : ChatApi)
      → ((send ready data' s).connect_generation ≡ s.connect_generation)
        × ((send ready data' s).pending_join ≡ s.pending_join)
        × (settled p (send ready data' s).trace ≡ settled p s.trace)
  unfolding send
  send-settled ready data' s = ground (arith, transmit-Keeps data' s)

  pub flush-Keeps :
      (ready : ℕ → ReadyState) (s : ChatApi)
      → ((flush_outbound_queue ready s).connect_generation ≡ s.connect_generation)
        × ((flush_outbound_queue ready s).pending_join ≡ s.pending_join)
        × (settled p (flush_outbound_queue ready s).trace ≡ settled p s.trace)
  unfolding flush_outbound_queue
  flush-Keeps ready s =
      ground (arith, transmit_all-Keeps s.outbound_queue (record s { outbound_queue = [] }))

-- Calling the handlers changes nothing of the object but the record of the calls.
abbrev pub OnlyTrace : ChatApi → ChatApi → Type 0
OnlyTrace s t = t ≡ record s { trace = t.trace }

call_each-OnlyTrace :
    (hs : List ℕ) (data' : Fields) (s : ChatApi) → OnlyTrace s (call_each hs data' s)
call_each-OnlyTrace [] data' s = refl
call_each-OnlyTrace (h ∷ hs) data' s = call_each-OnlyTrace hs data' (emit (calls h data') s)

pub dispatch-OnlyTrace :
    (event : Text) (data' : Fields) (s : ChatApi) → OnlyTrace s (dispatch event data' s)
unfolding dispatch
dispatch-OnlyTrace event data' s = go (lookup event s.handlers)
  where
    go : (r : Option (List ℕ)) → OnlyTrace s (elim r [ none ↦ s | some hs ↦ call_each hs data' s ])
    go none = refl
    go (some hs) = call_each-OnlyTrace hs data' s

OnlyTrace-trans : (s t u : ChatApi) → OnlyTrace s t → OnlyTrace t u → OnlyTrace s u
OnlyTrace-trans s t u h k = k ∙ ap (λ (x : ChatApi). record x { trace = u.trace }) h

pub dispatch_both-OnlyTrace : (data' : Fields) (s : ChatApi) → OnlyTrace s (dispatch_both data' s)
unfolding dispatch_both
dispatch_both-OnlyTrace data' s = go (type_of data')
  where
    go :
        (r : Option Text)
        → OnlyTrace s
            (dispatch (lit "*") data' (elim r [ none ↦ s | some event ↦ dispatch event data' s ]))
    go none = dispatch-OnlyTrace _ data' s
    go (some event) =
        OnlyTrace-trans s (dispatch event data' s) _ (dispatch-OnlyTrace event data' s)
          (dispatch-OnlyTrace _ data' (dispatch event data' s))
