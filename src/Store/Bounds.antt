-- ===== src/Store/Bounds.antt =====
-- The sizes of the two windows of messages.
use token_dance_chat.Base.{
  ℕ, ◌≤◌, ◌-◌, suc, ◌≡◌, refl, ap, Option, none, some, Bool, true, false, List, [], ◌∷◌, ◌++◌, map,
  Text, arith, length, length-append, length-take, length-drop, take, max, ◌&&◌, if◌then◌else◌,
  ◌==◌, includes,
}
use token_dance_chat.Message.{ChatMessage}
use token_dance_chat.Merge.{
  MergeDirection, prepend, append, start_loop, merge_loop, joined, cap_window, finish_merge,
  merge_message_window,
}
use token_dance_chat.Merge.Window.{Refreshed-length, merge_loop-Progress}
use token_dance_chat.Store.{ChatState, message_cap, history_cap}
use token_dance_chat.Store.Messages

cap_window-length :
    (direction : MergeDirection) (cap : ℕ) (ms : List ChatMessage)
    → length (cap_window direction cap ms).0 ≤ cap
unfolding cap_window
cap_window-length prepend cap ms = ground (arith, length-take cap ms)
cap_window-length append cap ms = ground (arith, length-drop (length ms - cap) ms)

-- Without a bound on the window before: it stays within the cap or does not grow.
pub merge-length :
    (current incoming : List ChatMessage) (direction : MergeDirection) (cap revision : ℕ)
    → length (merge_message_window current incoming direction cap revision).messages
      ≤ max cap (length current)
unfolding merge_message_window finish_merge
merge-length current [] direction cap revision = omega arith
merge-length current (m ∷ ms) direction cap revision =
    let l = merge_loop (start_loop current) (m ∷ ms) in
    let same =
      Refreshed-length (m ∷ ms) current l.messages
        (merge_loop-Progress (start_loop current) (m ∷ ms)).refreshed in
    let cut = cap_window-length direction cap (joined direction l) in ground arith

abbrev pub IsBounded : ChatState → Type 0
IsBounded s = length s.messages ≤ history_cap × length s.private_bot_messages ≤ message_cap

abbrev live : (current incoming : List ChatMessage) → ℕ → List ChatMessage
live current incoming revision =
    (merge_message_window current incoming append message_cap revision).messages

pub live-fits :
    (current incoming : List ChatMessage) (revision : ℕ)
    → length current ≤ history_cap
    → length (live current incoming revision) ≤ history_cap
live-fits current incoming revision h =
    let m = merge-length current incoming append message_cap revision in omega arith

pub live-private :
    (current incoming : List ChatMessage) (revision : ℕ)
    → length current ≤ message_cap
    → length (live current incoming revision) ≤ message_cap
live-private current incoming revision h =
    let m = merge-length current incoming append message_cap revision in omega arith

pub without_id-length :
    (id : Text) (ms : List ChatMessage) → length (Messages.without_id id ms) ≤ length ms
unfolding Messages.without_id
without_id-length id [] = omega arith
without_id-length id (m ∷ ms) = ground (arith, without_id-length id ms)

pub length-map_edit :
    (id content : Text) (ms : List ChatMessage)
    → length (map (Messages.edit_message id content) ms) ≡ length ms
length-map_edit id content [] = refl
length-map_edit id content (m ∷ ms) = ap suc (length-map_edit id content ms)

pub replaced-length :
    (m last : ChatMessage) (ms : List ChatMessage)
    → Messages.last_message ms ≡ some last
    → length (take (length ms - 1) ms ++ m ∷ []) ≡ length ms
unfolding Messages.last_message
replaced-length m last [] e = absurd (ground arith)
replaced-length m last (x ∷ xs) e =
    ground
      (arith, length-append (take (length xs) (x ∷ xs)) (m ∷ []), length-take (length xs) (x ∷ xs))

pub IsBounded-if :
    (b : Bool) (s t : ChatState) → IsBounded s → IsBounded t → IsBounded (if b then s else t)
IsBounded-if true s t f g = f
IsBounded-if false s t f g = g

append_system-IsBounded :
    (id content : Text) (timestamp : ℕ) (key : Option Text) (s : ChatState)
    → IsBounded s
    → IsBounded (Messages.append_system id content timestamp key s)
unfolding Messages.append_system
append_system-IsBounded id content timestamp key s (h, p) =
    (live-fits s.messages _ s.revision_counter h, p)

replace_last-IsBounded :
    (m last : ChatMessage) (s : ChatState)
    → Messages.last_message s.messages ≡ some last
    → IsBounded s
    → IsBounded (Messages.replace_last m s)
replace_last-IsBounded m last s e (h, p) =
    let same = replaced-length m last s.messages e in (omega arith, p)

pub add_after-IsBounded :
    (o : Option ChatMessage) (id content : Text) (timestamp : ℕ) (key : Option Text) (s : ChatState)
    → Messages.last_message s.messages ≡ o
    → IsBounded s
    → IsBounded (Messages.add_after o id content timestamp key s)
unfolding Messages.add_after
add_after-IsBounded none id content timestamp key s e b =
    append_system-IsBounded id content timestamp key s b
add_after-IsBounded (some last) id content timestamp key s e b =
    let anew = append_system-IsBounded id content timestamp key s b in
    let bumped = record last { timestamp = timestamp } in
    let updated = record last { content = content; timestamp = timestamp } in
    let either =
      IsBounded-if ((last.username == Messages.system) && (last.content == content))
        (Messages.replace_last bumped s) (Messages.append_system id content timestamp key s)
        (replace_last-IsBounded bumped last s e b) anew in
    IsBounded-if ((last.username == Messages.system) && Messages.same_key key last.dedupe_key)
      (Messages.replace_last updated s) _ (replace_last-IsBounded updated last s e b) either

pub add_message-IsBounded :
    (m : ChatMessage) (s : ChatState) → IsBounded s → IsBounded (Messages.add_message m s)
unfolding Messages.add_message
add_message-IsBounded m s (h, p) =
    IsBounded-if (includes s.blocked_users m.username) s _ (h, p)
      (live-fits s.messages (m ∷ []) s.revision_counter h, p)
