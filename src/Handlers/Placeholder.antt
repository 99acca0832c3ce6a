-- ===== src/Handlers/Placeholder.antt =====
-- The end of a stream.
use token_dance_chat.Base.{
  ℕ, ◌≡◌, refl, sym, subst, ltb, ◌-◌, ◌++◌, insert, ap, ◌∙◌, Bool, true, false, ◌||◌, List, [], ◌∷◌,
  none, Text, ◌==◌, ==_refl, lookup, lookup-erase, includes, arith, if◌then◌else◌,
}
use mathlib.Core.Option.{get_or}
use token_dance_chat.Message.{ChatMessage}
use token_dance_chat.Merge.{ids}
use token_dance_chat.Store.{ChatState}
use token_dance_chat.Store.Lists.{includes-remove_name}
use token_dance_chat.Store.Messages.{without_id}
use token_dance_chat.Store.People.{remove_typing_user}
use token_dance_chat.Handlers.Stream.{
  StreamEvent, StreamAcc, StreamState, stream_id, window_of, set_messages, drop_placeholder,
  end_stream, flush, gather, on_stream, open_stream, show,
}

without_id-gone : (id : Text) (ms : List ChatMessage) → includes (ids (without_id id ms)) id ≡ false
unfolding without_id includes
without_id-gone id [] = refl
without_id-gone id (m ∷ ms) = ground (arith, without_id-gone id ms)

drop_placeholder-gone :
    (is_private : Bool) (id : Text) (s : ChatState)
    → includes (ids (window_of is_private (drop_placeholder is_private id s))) id ≡ false
unfolding drop_placeholder window_of set_messages
drop_placeholder-gone true id s = without_id-gone id s.private_bot_messages
drop_placeholder-gone false id s = without_id-gone id s.messages

drop_placeholder-typing :
    (is_private : Bool) (id : Text) (s : ChatState)
    → (drop_placeholder is_private id s).typing_users ≡ s.typing_users
unfolding drop_placeholder set_messages
drop_placeholder-typing true id s = refl
drop_placeholder-typing false id s = refl

-- No trace of the stream of `username`.
abbrev pub IsEnded : StreamEvent → StreamState → Type 0
IsEnded e s =
    (includes (ids (window_of e.is_private s.chat)) (stream_id e.username) ≡ false)
    × (lookup (stream_id e.username) s.stream_acc ≡ none)
    × (includes s.chat.typing_users e.username ≡ false)

end_stream-IsEnded : (e : StreamEvent) (s : StreamState) → IsEnded e (end_stream e s)
unfolding end_stream remove_typing_user
end_stream-IsEnded e s = (
  drop_placeholder-gone e.is_private (stream_id e.username) (remove_typing_user e.username s.chat),
  ground (
    arith,
    lookup-erase (stream_id e.username) (stream_id e.username) s.stream_acc,
    ==_refl (stream_id e.username),
  ),
  ap (λ us. includes us e.username)
        (drop_placeholder-typing e.is_private (stream_id e.username)
          (remove_typing_user e.username s.chat))
      ∙ ground (
        arith,
        includes-remove_name e.username e.username s.chat.typing_users,
        ==_refl e.username,
      ),
)

if_true : (b : Bool) (x y : StreamState) → b ≡ true → (if b then x else y) ≡ x
if_true b x y h = rw h refl

if_false : (b : Bool) (x y : StreamState) → b ≡ false → (if b then x else y) ≡ y
if_false b x y h = rw h refl

flush-IsEnded :
    (e : StreamEvent) (text : Text) (now : ℕ) (s : StreamState)
    → e.done ≡ true
    → IsEnded e (flush e text now s)
unfolding flush
flush-IsEnded e text now s d =
    let shown : StreamState = record {
      chat = show e text now s.chat;
      stream_acc =
          insert (stream_id e.username) (record { content = text; last_flush = now }) s.stream_acc;
    } in
    subst (IsEnded e) (sym (if_true e.done (end_stream e shown) shown d))
      (end_stream-IsEnded e shown)

gather-IsEnded :
    (e : StreamEvent) (now : ℕ) (acc : StreamAcc) (s : StreamState)
    → e.done ≡ true
    → IsEnded e (gather e now acc s)
unfolding gather
gather-IsEnded e now acc s d =
    let due : (e.done || ltb 80 (now - acc.last_flush)) ≡ true = ground (arith, d) in
    let text = acc.content ++ get_or e.content [] in
    subst (IsEnded e)
      (sym (if_true (e.done || ltb 80 (now - acc.last_flush)) (flush e text now s) _ due))
      (flush-IsEnded e text now s d)

-- After the last frame of a stream, by a named sender other than the user, the placeholder is gone
-- from the list that the stream wrote to, whatever that list held; nothing is gathered for the
-- sender any more, and the sender is not shown as typing.
pub on_stream-IsEnded :
    (now : ℕ) (e : StreamEvent) (s : StreamState)
    → e.done ≡ true
    → (e.username == []) ≡ false
    → (e.username == s.chat.username) ≡ false
    → IsEnded e (on_stream now e s)
unfolding on_stream
on_stream-IsEnded now e s d n o =
    let opened = open_stream e s in
    let streams : ((e.username == []) || (e.username == s.chat.username)) ≡ false =
      rw (n, o) refl in
    let gathered = gather e now opened.0 (record s { chat = opened.1 }) in
    subst (IsEnded e)
      (sym (if_false ((e.username == []) || (e.username == s.chat.username)) s gathered streams))
      (gather-IsEnded e now opened.0 (record s { chat = opened.1 }) d)
