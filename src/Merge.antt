-- ===== src/Merge.antt =====
-- frontend/src/stores/mergeMessageWindow.ts: merging a page of messages into the window on screen.
-- The module's counter `revisionCounter` is an argument, and its new value is the result's
-- `revision`.
pub mod Position
pub mod Window
pub mod Rounds
pub mod Spec
pub mod Result
pub mod Novel
pub mod Dedup
pub mod Echo
mod Tests
use token_dance_chat.Base.{
  ℕ, zero, suc, ◌+◌, ◌-◌, Bool, true, false, not, ◌&&◌, List, [], ◌∷◌, ◌++◌, map, Option, none,
  some, Text, lit, ◌==◌, starts_with, includes, length, get_elem?, set, take, drop, find_index, ltb,
  eqb, if◌then◌else◌,
}
use token_dance_chat.Message.{ChatMessage}

pub data MergeDirection : Type 0 where
  prepend append : MergeDirection

pub data Side : Type 0 where
  head tail : Side

pub record MergeResult : Type 0 where
  pub messages : List ChatMessage
  pub added_count : ℕ
  pub dropped_side : Option Side
  pub revision : ℕ

-- The variables of the loop over the incoming messages.
pub record MergeLoop : Type 0 where
  pub messages : List ChatMessage
  pub existing_ids : List Text
  pub new_messages : List ChatMessage

abbrev pub ids : List ChatMessage → List Text
ids = map (λ m. m.id)

-- `{ ...msg, reactions: old.reactions }`
abbrev pub echo_of : ChatMessage → ChatMessage → ChatMessage
echo_of msg old = record msg { reactions = old.reactions }

-- `messages[i] = { ...msg, reactions: messages[i].reactions }; existingIDs.add(msg.id)`
unfoldable pub replace_at : MergeLoop → ChatMessage → ℕ → MergeLoop
replace_at l msg i = elim (get_elem? l.messages i) [
  | none ↦ l
  | some old ↦ record l {
    messages = set l.messages i (echo_of msg old);
    existing_ids = msg.id ∷ l.existing_ids;
  }
]

-- The position of the entry that `client_message_id` names; an absent or empty one names none.
unfoldable pub client_position : List ChatMessage → Option Text → Option ℕ
client_position messages none = none
client_position messages (some []) = none
client_position messages (some (c ∷ cs)) = find_index (λ m. m.id == (c ∷ cs)) messages

-- `Math.abs(a - b)`
abbrev pub distance : ℕ → ℕ → ℕ
distance a b = (a - b) + (b - a)

abbrev pub optimistic_prefix : Text
optimistic_prefix = lit "optimistic_"

unfoldable pub is_optimistic : ChatMessage → Bool
is_optimistic m = starts_with optimistic_prefix m.id

unfoldable pub is_twin : ChatMessage → ChatMessage → Bool
is_twin msg m =
    is_optimistic m
    && (m.username == msg.username)
    && (m.content == msg.content)
    && ltb (distance m.timestamp msg.timestamp) 5000

abbrev pub holds_at : (ChatMessage → Bool) → List ChatMessage → ℕ → Bool
holds_at p messages i = elim (get_elem? messages i) [ none ↦ false | some m ↦ p m ]

-- `for (i = start + k - 1; i >= start; i--)`
unfoldable pub scan_down : (ChatMessage → Bool) → List ChatMessage → ℕ → ℕ → Option ℕ
scan_down p messages start zero = none
scan_down p messages start (suc k) =
    if holds_at p messages (start + k) then some (start + k) else scan_down p messages start k

-- The optimistic twin among the last five entries, the newest first.
unfoldable pub twin_position : List ChatMessage → ChatMessage → Option ℕ
twin_position messages msg =
    let start = length messages - 5 in
    if is_optimistic msg
    then none
    else scan_down (is_twin msg) messages start (length messages - start)

-- The position at which `msg` replaces an entry, by `client_message_id` or else as a twin.
unfoldable pub echo_position : List ChatMessage → ChatMessage → Option ℕ
echo_position messages msg = elim (client_position messages msg.client_message_id) [
  | none ↦ twin_position messages msg
  | some i ↦ some i
]

-- One round of the loop.
unfoldable pub merge_one : MergeLoop → ChatMessage → MergeLoop
merge_one l msg = elim (echo_position l.messages msg) [
  | some i ↦ replace_at l msg i
  | none ↦ if includes l.existing_ids msg.id then l else record l {
    new_messages = l.new_messages ++ msg ∷ [];
    existing_ids = msg.id ∷ l.existing_ids;
  }
]

unfoldable pub merge_loop : MergeLoop → List ChatMessage → MergeLoop
merge_loop l [] = l
merge_loop l (msg ∷ msgs) = merge_loop (merge_one l msg) msgs

abbrev pub start_loop : List ChatMessage → MergeLoop
start_loop current = record { messages = current; existing_ids = ids current; new_messages = [] }

abbrev pub joined : MergeDirection → MergeLoop → List ChatMessage
joined prepend l = l.new_messages ++ l.messages
joined append l = l.messages ++ l.new_messages

-- The cap: a prepend keeps the front, an append keeps the back.
unfoldable pub cap_window : MergeDirection → ℕ → List ChatMessage → List ChatMessage × Option Side
cap_window prepend cap ms = if ltb cap (length ms) then (take cap ms, some tail) else (ms, none)
cap_window append cap ms =
    if ltb cap (length ms) then (drop (length ms - cap) ms, some head) else (ms, none)

-- What follows the loop.
unfoldable pub finish_merge : MergeLoop → ℕ → MergeDirection → ℕ → ℕ → MergeResult
finish_merge l current_length direction cap revision =
    let window = cap_window direction cap (joined direction l) in
    if eqb (length l.new_messages) 0 && eqb (length l.messages) current_length
    then record { messages = l.messages; added_count = 0; dropped_side = none; revision = revision }
    else record {
      messages = window.0;
      added_count = length l.new_messages;
      dropped_side = window.1;
      revision = revision + 1;
    }

unfoldable pub merge_message_window :
    List ChatMessage → List ChatMessage → MergeDirection → ℕ → ℕ → MergeResult
merge_message_window current [] direction cap revision = record {
  messages = current;
  added_count = 0;
  dropped_side = none;
  revision = revision;
}
merge_message_window current (m ∷ ms) direction cap revision =
    finish_merge (merge_loop (start_loop current) (m ∷ ms)) (length current) direction cap revision
