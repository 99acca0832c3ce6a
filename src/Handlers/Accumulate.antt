-- ===== src/Handlers/Accumulate.antt =====
-- What a stream gathers.
use mathlib.Core.List.{append_assoc, append-nil}
use token_dance_chat.Base.{
  ℕ, ◌+◌, ◌-◌, ◌≤◌, subst, Option-cases, ◌≡◌, refl, sym, ap, ◌∙◌, Bool, true, false, ◌||◌, List, [],
  ◌∷◌, ◌++◌, Option, none, some, Text, Dict, map, ◌==◌, ==_refl, lookup, insert, lookup-insert,
  arith, ltb, if◌then◌else◌, Bool-cases, inl, inr,
}
use token_dance_chat.Message.{ChatMessage, chat_message}
use token_dance_chat.Store.{ChatState}
use token_dance_chat.Store.Messages.{add_message, add_private_bot_message, set_private_bot_history}
use token_dance_chat.Handlers.Stream.{
  StreamEvent, StreamAcc, StreamState, stream_id, window_of, set_messages, drop_placeholder, show,
  flush, gather, open_stream, opened_as, show_text, on_stream, clean_accs, on_cleanup,
}

abbrev pub content_of : Option StreamAcc → Text
content_of none = []
content_of (some acc) = acc.content

unfoldable pub gathered : Text → StreamState → Text
gathered username s = content_of (lookup (stream_id username) s.stream_acc)

-- A chunk that is not the last.
abbrev pub chunk : Text → Bool → Text → StreamEvent
chunk username is_private content = record {
  username = username;
  content = some content;
  done = false;
  is_private = is_private;
}

-- A chunk of one stream, or the cleanup of the interval, each with its time.
pub data StreamMoment : Type 0 where
  arrives : ℕ → Text → StreamMoment
  cleans : ℕ → StreamMoment

unfoldable pub on_chunks : Text → Bool → List StreamMoment → StreamState → StreamState
on_chunks username is_private [] s = s
on_chunks username is_private (arrives now content ∷ ms) s =
    on_chunks username is_private ms (on_stream now (chunk username is_private content) s)
on_chunks username is_private (cleans now ∷ ms) s =
    on_chunks username is_private ms (on_cleanup now s)

unfoldable pub joined_text : List StreamMoment → Text
joined_text [] = []
joined_text (arrives now content ∷ ms) = content ++ joined_text ms
joined_text (cleans now ∷ ms) = joined_text ms

-- No cleanup comes later than 119.92 seconds after the chunk before it: two minutes, less the 80 ms
-- that the text may wait to be shown. `last` is the time of that chunk, where there was one.
abbrev pub IsTimely : Option ℕ → List StreamMoment → Type 0
IsTimely last [] = Unit
IsTimely last (arrives now content ∷ ms) = IsTimely (some now) ms
IsTimely none (cleans now ∷ ms) = IsTimely none ms
IsTimely (some last) (cleans now ∷ ms) = (now ≤ last + 119920) × IsTimely (some last) ms

-- What the stream has gathered was shown at most 80 ms before the chunk of that time, or nothing is
-- gathered.
abbrev pub IsShownSince : Option ℕ → Option StreamAcc → Type 0
IsShownSince none none = Unit
IsShownSince (some last) (some acc) = last ≤ acc.last_flush + 80
IsShownSince _ _ = ⊥

opened_as-content :
    (o : Option StreamAcc) (e : StreamEvent) (s : ChatState)
    → (opened_as o e s).0.content ≡ content_of o
unfolding opened_as
opened_as-content none e s = refl
opened_as-content (some acc) e s = refl

lookup-insert_self :
    (id : Text) (acc : StreamAcc) (d : Dict StreamAcc) → lookup id (insert id acc d) ≡ some acc
lookup-insert_self id acc d =
    lookup-insert id id acc d ∙ ap (λ b. if b then some acc else lookup id d) (==_refl id)

gathered-insert :
    (username : Text) (acc : StreamAcc) (d : Dict StreamAcc)
    → content_of (lookup (stream_id username) (insert (stream_id username) acc d)) ≡ acc.content
gathered-insert username acc d = ap content_of (lookup-insert_self (stream_id username) acc d)

since-insert :
    (now : ℕ) (username : Text) (acc : StreamAcc) (d : Dict StreamAcc)
    → now ≤ acc.last_flush + 80
    → IsShownSince (some now) (lookup (stream_id username) (insert (stream_id username) acc d))
since-insert now username acc d h =
    subst (IsShownSince (some now)) (sym (lookup-insert_self (stream_id username) acc d)) h

-- A cleanup leaves what is recent enough, and makes nothing.
clean_accs-kept :
    (now : ℕ) (id : Text) (acc : StreamAcc) (d : Dict StreamAcc)
    → now ≤ acc.last_flush + 120000
    → lookup id d ≡ some acc
    → lookup id (clean_accs now d) ≡ some acc
unfolding lookup clean_accs
clean_accs-kept now id acc [] h e = cc
clean_accs-kept now id acc ((k, other) ∷ d) h e = elim (Bool-cases (k == id)) [
  | inl here ↦
      let is : some other ≡ some acc = rw here at e in
      let same : other.last_flush ≡ acc.last_flush = cc in
      let fits : ltb 120000 (now - other.last_flush) ≡ false = ground (arith, same, h) in
      rw (fits, here) is
  | inr there ↦
      let rest = clean_accs-kept now id acc d h (rw there at e) in ground (arith, there, rest)
]

clean_accs-none :
    (now : ℕ) (id : Text) (d : Dict StreamAcc)
    → lookup id d ≡ none
    → lookup id (clean_accs now d) ≡ none
unfolding lookup clean_accs
clean_accs-none now id [] e = refl
clean_accs-none now id ((k, other) ∷ d) e = ground (arith, e, clean_accs-none now id d)

cleanup_lem :
    (now : ℕ) (username : Text) (ms : List StreamMoment) (last : Option ℕ) (s : StreamState)
    → IsShownSince last (lookup (stream_id username) s.stream_acc)
    → IsTimely last (cleans now ∷ ms)
    → (lookup (stream_id username) (on_cleanup now s).stream_acc
        ≡ lookup (stream_id username) s.stream_acc)
      × IsTimely last ms
unfolding on_cleanup
cleanup_lem now username ms none s h t =
    let id = stream_id username in
    elim (Option-cases (lookup id s.stream_acc)) [
      | inl e ↦ (clean_accs-none now id s.stream_acc e ∙ sym e, t)
      | inr (acc, e) ↦ absurd (subst (IsShownSince none) e h)
    ]
cleanup_lem now username ms (some last) s h (soon, t) =
    let id = stream_id username in
    elim (Option-cases (lookup id s.stream_acc)) [
      | inl e ↦ absurd (subst (IsShownSince (some last)) e h)
      | inr (acc, e) ↦
          let since = subst (IsShownSince (some last)) e h in
          (clean_accs-kept now id acc s.stream_acc (omega (arith, soon, since)) e ∙ sym e, t)
    ]

set_messages-username :
    (b : Bool) (ms : List ChatMessage) (s : ChatState) → (set_messages b ms s).username ≡ s.username
unfolding set_messages
set_messages-username true ms s = refl
set_messages-username false ms s = refl

set_messages-if :
    (b c : Bool) (ms : List ChatMessage) (s : ChatState)
    → (if c then set_messages b ms s else s).username ≡ s.username
set_messages-if b true ms s = set_messages-username b ms s
set_messages-if b false ms s = refl

add_message-username : (m : ChatMessage) (s : ChatState) → (add_message m s).username ≡ s.username
unfolding add_message
add_message-username m s = ground arith

private-username :
    (m : ChatMessage) (s : ChatState) → (add_private_bot_message m s).username ≡ s.username
unfolding add_private_bot_message set_private_bot_history
private-username m s = refl

show-username :
    (e : StreamEvent) (text : Text) (now : ℕ) (s : ChatState)
    → (show e text now s).username ≡ s.username
unfolding show
show-username e text now s =
    let id = stream_id e.username in
    let m = chat_message id e.username text now in
    let shown =
      set_messages-username e.is_private (map (show_text id text) (window_of e.is_private s)) s in
    ground (arith, shown, private-username m s, add_message-username m s)

opened_as-username :
    (o : Option StreamAcc) (e : StreamEvent) (s : ChatState)
    → (opened_as o e s).1.username ≡ s.username
unfolding opened_as drop_placeholder
opened_as-username none e s = set_messages-if e.is_private _ _ s
opened_as-username (some acc) e s = refl

gather-chunk :
    (now : ℕ) (username content : Text) (is_private : Bool) (acc : StreamAcc) (s : StreamState)
    → let t = gather (chunk username is_private content) now acc s in
      (gathered username t ≡ acc.content ++ content)
      × (t.chat.username ≡ s.chat.username)
      × IsShownSince (some now) (lookup (stream_id username) t.stream_acc)
unfolding gather flush gathered
gather-chunk now username content is_private acc s =
    let text = acc.content ++ content in
    let e = chunk username is_private content in
    elim (Bool-cases (ltb 80 (now - acc.last_flush))) [
      | inl due ↦ rw due (
        gathered-insert username _ s.stream_acc,
        show-username e text now s.chat,
        since-insert now username _ s.stream_acc (omega arith),
      )
      | inr early ↦ rw early (
        gathered-insert username _ s.stream_acc,
        refl,
        since-insert now username _ s.stream_acc (ground (arith, early)),
      )
    ]

on_stream-chunk :
    (now : ℕ) (username content : Text) (is_private : Bool) (s : StreamState)
    → (username == []) ≡ false
    → (username == s.chat.username) ≡ false
    → let t = on_stream now (chunk username is_private content) s in
      (gathered username t ≡ gathered username s ++ content)
      × (t.chat.username ≡ s.chat.username)
      × IsShownSince (some now) (lookup (stream_id username) t.stream_acc)
unfolding on_stream open_stream
on_stream-chunk now username content is_private s n o =
    let e = chunk username is_private content in
    let opened = open_stream e s in
    let known = lookup (stream_id username) s.stream_acc in
    let (grown, same, since) =
      gather-chunk now username content is_private opened.0 (record s { chat = opened.1 }) in
    let streams : ((username == []) || (username == s.chat.username)) ≡ false = rw (n, o) refl in
    rw streams (
      grown ∙ ap (λ x. x ++ content) (unfold gathered in opened_as-content known e s.chat),
      same ∙ opened_as-username known e s.chat,
      since,
    )

-- The chunks of a stream, of a named sender other than the user and before the last frame, are
-- gathered in order behind what was gathered before, whether or not they are shown, as long as no
-- cleanup comes later than 119.92 seconds after the chunk before it.
pub on_chunks-gathered :
    (username : Text) (is_private : Bool) (ms : List StreamMoment) (last : Option ℕ)
    (s : StreamState)
    → (username == []) ≡ false
    → (username == s.chat.username) ≡ false
    → IsShownSince last (lookup (stream_id username) s.stream_acc)
    → IsTimely last ms
    → gathered username (on_chunks username is_private ms s) ≡ gathered username s ++ joined_text ms
unfolding on_chunks joined_text
on_chunks-gathered username is_private [] last s n o h t = sym (append-nil _)
on_chunks-gathered username is_private (arrives now content ∷ ms) last s n o h t =
    let (grown, same, since) = on_stream-chunk now username content is_private s n o in
    let r = on_stream now (chunk username is_private content) s in
    on_chunks-gathered username is_private ms (some now) r n (ap (λ u. username == u) same ∙ o)
      since t
    ∙ ap (λ x. x ++ joined_text ms) grown
    ∙ append_assoc (gathered username s) content (joined_text ms)
on_chunks-gathered username is_private (cleans now ∷ ms) last s n o h t =
    let (kept, timely) = cleanup_lem now username ms last s h t in
    let r = on_cleanup now s in
    let same : gathered username r ≡ gathered username s = unfold gathered in ap content_of kept in
    on_chunks-gathered username is_private ms last r n (unfold on_cleanup in o)
      (subst (IsShownSince last) (sym kept) h) timely
    ∙ ap (λ x. x ++ joined_text ms) same
