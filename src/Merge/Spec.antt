-- ===== src/Merge/Spec.antt =====
-- The contract of `mergeMessageWindow`, stated without its loop.
use token_dance_chat.Base.{
  ℕ, ◌+◌, ◌-◌, ◌≤◌, ◌<◌, ◌≡◌, refl, sym, subst, ap, ◌∙◌, List, [], ◌∷◌, ◌++◌, Option, none, some,
  arith, length, take, drop, length-take, length-drop, take-append-drop, if◌then◌else◌, ltb, eqb,
  min, Bool-cases, inl, inr,
}
use mathlib.Core.List.{append-nil}
use token_dance_chat.Message.{ChatMessage}
use token_dance_chat.Merge.{
  MergeDirection, prepend, append, Side, head, tail, ids, MergeLoop, MergeResult, start_loop,
  joined, cap_window, merge_message_window,
}
use token_dance_chat.Merge.Result.{EndsIn, merge_message_window-EndsIn}
use token_dance_chat.Merge.Rounds.{Merges, merge_loop-Rounds}

-- The two lists of a merge, in the order of its direction.
abbrev pub arranged : MergeDirection → List ChatMessage → List ChatMessage → List ChatMessage
arranged prepend kept added = added ++ kept
arranged append kept added = kept ++ added

-- `whole` is the window and what was cut off: behind it for a prepend, before it for an append.
abbrev pub Cut : MergeDirection → List ChatMessage → List ChatMessage → List ChatMessage → Type 0
Cut prepend whole window dropped = whole ≡ window ++ dropped
Cut append whole window dropped = whole ≡ dropped ++ window

abbrev pub lost_side : MergeDirection → List ChatMessage → Option Side
lost_side direction [] = none
lost_side prepend (_ ∷ _) = some tail
lost_side append (_ ∷ _) = some head

pub record IsMerge (current incoming : List ChatMessage) (direction : MergeDirection)
    (cap revision : ℕ) (r : MergeResult) : Type 0 where
  pub kept : List ChatMessage
  pub added : List ChatMessage
  pub dropped : List ChatMessage
  pub merged : Merges incoming (ids current) current kept added
  pub cut : Cut direction (arranged direction kept added) r.messages dropped
  pub size : length r.messages ≡ min cap (length (arranged direction kept added))
  pub side : r.dropped_side ≡ lost_side direction dropped
  pub count : r.added_count ≡ length added
  pub revised : r.revision ≡ (if eqb (length added) 0 then revision else revision + 1)

-- The cap cuts a window into what stays and what is dropped.
pub record IsCapped (direction : MergeDirection) (cap : ℕ) (whole : List ChatMessage)
    (r : List ChatMessage × Option Side) : Type 0 where
  pub dropped : List ChatMessage
  pub cut : Cut direction whole r.0 dropped
  pub size : length r.0 ≡ min cap (length whole)
  pub side : r.1 ≡ lost_side direction dropped

lost_side-some :
    (ds : List ChatMessage)
    → 0 < length ds
    → (lost_side prepend ds ≡ some tail) × (lost_side append ds ≡ some head)
lost_side-some [] h = absurd (omega arith)
lost_side-some (d ∷ ds) h = (refl, refl)

pub cap_window-IsCapped :
    (direction : MergeDirection) (cap : ℕ) (whole : List ChatMessage)
    → IsCapped direction cap whole (cap_window direction cap whole)
unfolding cap_window
cap_window-IsCapped prepend cap whole = elim (Bool-cases (ltb cap (length whole))) [
  | inl over ↦ rw over (record {
    dropped = drop cap whole;
    cut = sym (take-append-drop cap whole);
    size = length-take cap whole;
    side = sym ((lost_side-some (drop cap whole) (ground (arith, length-drop cap whole))).0);
  })
  | inr fits ↦
      rw fits
        (record { dropped = []; cut = sym (append-nil whole); size = ground arith; side = refl })
]
cap_window-IsCapped append cap whole = elim (Bool-cases (ltb cap (length whole))) [
  | inl over ↦
      let n : ℕ = length whole - cap in
      rw over (record {
        dropped = take n whole;
        cut = sym (take-append-drop n whole);
        size = ground (arith, length-drop n whole);
        side = sym ((lost_side-some (take n whole) (ground (arith, length-take n whole))).1);
      })
  | inr fits ↦ rw fits (record { dropped = []; cut = refl; size = ground arith; side = refl })
]

joined-arranged :
    (direction : MergeDirection) (l : MergeLoop)
    → joined direction l ≡ arranged direction l.messages l.new_messages
joined-arranged prepend l = refl
joined-arranged append l = refl

EndsIn-IsMerge :
    (current incoming : List ChatMessage) (l : MergeLoop) (direction : MergeDirection)
    (cap revision : ℕ) (r : MergeResult)
    → Merges incoming (ids current) current l.messages l.new_messages
    → EndsIn l direction cap revision r
    → IsMerge current incoming direction cap revision r
EndsIn-IsMerge current incoming l direction cap revision r merged ends =
    let whole = arranged direction l.messages l.new_messages in
    let window : cap_window direction cap whole ≡ (r.messages, r.dropped_side) =
      ap (cap_window direction cap) (sym (joined-arranged direction l)) ∙ ends.window in
    let c : IsCapped direction cap whole (r.messages, r.dropped_side) =
      subst (IsCapped direction cap whole) window (cap_window-IsCapped direction cap whole) in
    record {
      kept = l.messages;
      added = l.new_messages;
      dropped = c.dropped;
      merged = merged;
      cut = c.cut;
      size = c.size;
      side = c.side;
      count = ends.count;
      revised = ends.revised;
    }

-- For a window within the cap the merge does this and nothing else, with the incoming messages in
-- their order. A message that echoes an entry, the first that its client id names or else the newest
-- optimistic twin among the last five, takes the entry's place and keeps the entry's reactions. One
-- that echoes none is left out if its id stands in the window or came before, and is put in if not:
-- before the window (prepend) or behind it (append). The result is cut to `cap` at the back
-- (prepend) or at the front (append), and says on which side; the count is the number put in
-- before the cut; the revision goes up by one exactly if that number is not 0.
pub merge_message_window-IsMerge :
    (current incoming : List ChatMessage) (direction : MergeDirection) (cap revision : ℕ)
    → length current ≤ cap
    → IsMerge current incoming direction cap revision
        (merge_message_window current incoming direction cap revision)
merge_message_window-IsMerge current incoming direction cap revision h =
    let p = merge_loop-Rounds (start_loop current) incoming in
    EndsIn-IsMerge current incoming _ direction cap revision _ (rw p.new_messages p.merged)
      (merge_message_window-EndsIn current incoming direction cap revision h)

-- So the window never grows beyond the cap.
pub length-merge_message_window :
    (current incoming : List ChatMessage) (direction : MergeDirection) (cap revision : ℕ)
    → length current ≤ cap
    → length (merge_message_window current incoming direction cap revision).messages ≤ cap
length-merge_message_window current incoming direction cap revision h =
    omega (arith, (merge_message_window-IsMerge current incoming direction cap revision h).size)
