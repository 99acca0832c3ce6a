-- ===== src/Merge/Dedup.antt =====
-- Merging a page of which no message is the echo of an entry: nothing twice, nothing lost.
use mathlib.Core.List.{map-append}
use token_dance_chat.Base.{
  ℕ, zero, suc, ◌+◌, ◌-◌, ◌≤◌, ◌≡◌, refl, sym, ap, ◌∙◌, true, List, [], ◌∷◌, arith, length, take,
  drop, includes, ltb, Bool-cases, inl, inr, All, Apart, Distinct, Distinct-append, Distinct-take,
  Distinct-drop, Apart-sym, subst, includes-append, length-append,
}
use token_dance_chat.Message.{ChatMessage}
use token_dance_chat.Merge.{
  MergeDirection, prepend, append, MergeLoop, ids, merge_loop, start_loop, joined, cap_window,
  merge_message_window,
}
use token_dance_chat.Merge.Result.{merge_message_window-EndsIn, EndsIn-idle, cap_window-fits}
use token_dance_chat.Merge.Novel.{
  NoEcho, Covered, loop_of_page, novel-Apart, novel-Distinct, novel-Covered, length-novel,
  novel-again,
}

-- No id occurs twice.
abbrev pub HasDistinctIds : List ChatMessage → Type 0
HasDistinctIds ms = Distinct (ids ms)

ids-take : (n : ℕ) (ms : List ChatMessage) → ids (take n ms) ≡ take n (ids ms)
ids-take zero ms = refl
ids-take (suc n) [] = refl
ids-take (suc n) (m ∷ ms) = ap (◌∷◌ m.id) (ids-take n ms)

ids-drop : (n : ℕ) (ms : List ChatMessage) → ids (drop n ms) ≡ drop n (ids ms)
ids-drop zero ms = refl
ids-drop (suc n) [] = refl
ids-drop (suc n) (m ∷ ms) = ids-drop n ms

-- The cap keeps ids distinct.
pub cap_window-HasDistinctIds :
    (direction : MergeDirection) (cap : ℕ) (ms : List ChatMessage)
    → HasDistinctIds ms
    → HasDistinctIds (cap_window direction cap ms).0
unfolding cap_window
cap_window-HasDistinctIds prepend cap ms d = elim (Bool-cases (ltb cap (length ms))) [
  | inl over ↦ rw (over, ids-take cap ms) (Distinct-take cap (ids ms) d)
  | inr fits ↦ rw fits d
]
cap_window-HasDistinctIds append cap ms d = elim (Bool-cases (ltb cap (length ms))) [
  | inl over ↦ rw (over, ids-drop (length ms - cap) ms) (Distinct-drop _ (ids ms) d)
  | inr fits ↦ rw fits d
]

joined-HasDistinctIds :
    (direction : MergeDirection) (l : MergeLoop)
    → HasDistinctIds l.messages
    → HasDistinctIds l.new_messages
    → Apart (ids l.messages) (ids l.new_messages)
    → HasDistinctIds (joined direction l)
joined-HasDistinctIds prepend l d e a = rw map-append (Distinct-append _ _ e d (Apart-sym _ _ a))
joined-HasDistinctIds append l d e a = rw map-append (Distinct-append _ _ d e a)

-- In a window within the cap whose ids are distinct, a page without echoes leaves the ids
-- distinct, whichever of its messages are known already or repeated within the page.
pub merge_page-HasDistinctIds :
    (current page : List ChatMessage) (direction : MergeDirection) (cap revision : ℕ)
    → length current ≤ cap
    → NoEcho current page
    → HasDistinctIds current
    → HasDistinctIds (merge_message_window current page direction cap revision).messages
merge_page-HasDistinctIds current page direction cap revision h e d =
    let l = merge_loop (start_loop current) page in
    let (same, added) = loop_of_page (start_loop current) page e in
    subst (λ w. HasDistinctIds w.0)
      (merge_message_window-EndsIn current page direction cap revision h).window
      (cap_window-HasDistinctIds direction cap (joined direction l) (
        joined-HasDistinctIds direction l (rw same d) (rw added (novel-Distinct (ids current) page))
          (rw (same, added) (novel-Apart (ids current) page))))

joined-Covered :
    (direction : MergeDirection) (l : MergeLoop) (page : List ChatMessage)
    → Covered (ids l.messages) page l.new_messages
    → All (λ m. includes (ids (joined direction l)) m.id ≡ true) page
joined-Covered direction l [] h = tt
joined-Covered prepend l (m ∷ page) (c, h) = (
  rw (map-append) (ground (arith, includes-append (ids l.new_messages) (ids l.messages) m.id)),
  joined-Covered prepend l page h,
)
joined-Covered append l (m ∷ page) (c, h) = (
  rw (map-append) (ground (arith, includes-append (ids l.messages) (ids l.new_messages) m.id)),
  joined-Covered append l page h,
)

length-joined :
    (direction : MergeDirection) (l : MergeLoop)
    → length (joined direction l) ≡ length l.messages + length l.new_messages
length-joined prepend l = omega (arith, length-append l.new_messages l.messages)
length-joined append l = length-append l.messages l.new_messages

-- Where the window and the page fit within the cap and the page has no echoes, every message of
-- the page is in the window afterwards, or one with its id is.
pub merge_page_complete :
    (current page : List ChatMessage) (direction : MergeDirection) (cap revision : ℕ)
    → length current + length page ≤ cap
    → NoEcho current page
    → let r = merge_message_window current page direction cap revision in
      All (λ m. includes (ids r.messages) m.id ≡ true) page
merge_page_complete current page direction cap revision h e =
    let l = merge_loop (start_loop current) page in
    let (same, added) = loop_of_page (start_loop current) page e in
    let fits : length (joined direction l) ≤ cap = omega (
      arith,
      length-joined direction l,
      ap length same,
      ap length added,
      length-novel (ids current) page,
    ) in
    let whole : (merge_message_window current page direction cap revision).messages
        ≡ joined direction l =
      ap (λ w. w.0)
        (sym (merge_message_window-EndsIn current page direction cap revision (omega arith)).window
          ∙ cap_window-fits direction cap (joined direction l) fits) in
    subst (λ ms. All (λ m. includes (ids ms) m.id ≡ true) page) (sym whole)
      (joined-Covered direction l page (
        subst (λ ms. Covered (ids ms) page l.new_messages) (sym same)
          (subst (Covered (ids current) page) (sym added) (novel-Covered (ids current) page))))

-- A page without echoes whose ids all stand in a window within the cap changes nothing: neither
-- the window nor the revision, and nothing counts as added.
pub merge_page_again :
    (current page : List ChatMessage) (direction : MergeDirection) (cap revision : ℕ)
    → length current ≤ cap
    → NoEcho current page
    → All (λ m. includes (ids current) m.id ≡ true) page
    → let r = merge_message_window current page direction cap revision in
      (r.messages ≡ current) × (r.added_count ≡ 0) × (r.revision ≡ revision)
merge_page_again current page direction cap revision h e known =
    let l = merge_loop (start_loop current) page in
    let (same, added) = loop_of_page (start_loop current) page e in
    let none_new : l.new_messages ≡ [] = added ∙ novel-again (ids current) page known in
    let (messages, count, revised) =
      EndsIn-idle l direction cap revision _
        (merge_message_window-EndsIn current page direction cap revision h) none_new
        (omega (arith, ap length same)) in
    (messages ∙ same, count, revised)
