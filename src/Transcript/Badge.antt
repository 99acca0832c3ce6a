-- ===== src/Transcript/Badge.antt =====
-- The number of new messages on the button that leads to the end of the list.
use token_dance_chat.Base.{
  ℕ, suc, ◌+◌, ◌-◌, ◌≡◌, refl, ap, ◌∙◌, false, ◌||◌, List, [], ◌∷◌, ◌++◌, Option, none, some, Text,
  ◌==◌, ==_refl, includes, length, length-append, find_index, arith, Distinct, if◌then◌else◌,
}
use token_dance_chat.Message.{ChatMessage}
use token_dance_chat.Merge.{ids}
use token_dance_chat.Store.Messages.{last_message}
use token_dance_chat.Transcript.{View}

-- `msgs.length - prevIdx - 1`, and nothing where the index is -1.
abbrev pub behind : ℕ → Option ℕ → ℕ
behind n none = 0
behind n (some i) = n - i - 1

-- The messages behind the one that was the last, if it is still there.
unfoldable pub messages_behind : Text → List ChatMessage → ℕ
messages_behind prev_last_id msgs =
    behind (length msgs) (find_index (λ m. m.id == prev_last_id) msgs)

unfoldable pub count_behind : Option Text → ChatMessage → List ChatMessage → View → View
count_behind none last msgs v = v
count_behind (some prev) last msgs v =
    if (prev == []) || (last.id == prev) || v.should_auto_scroll
    then v
    else record v { new_message_count = v.new_message_count + messages_behind prev msgs }

-- The effect that runs when the messages change.
unfoldable pub see_messages : Option ChatMessage → List ChatMessage → View → View
see_messages none msgs v = record v { last_seen_message_id = none }
see_messages (some last) msgs v =
    count_behind v.last_seen_message_id last msgs (record v { last_seen_message_id = some last.id })

unfoldable pub count_new_messages : List ChatMessage → View → View
count_new_messages msgs = see_messages (last_message msgs) msgs

-- The effect that runs when the list is scrolled to its end.
unfoldable pub reset_badge : View → View
reset_badge v = if v.should_auto_scroll then record v { new_message_count = 0 } else v

distinct_head :
    (x : ChatMessage) (front rest : List ChatMessage) (p : ChatMessage)
    → includes (ids (front ++ p ∷ rest)) x.id ≡ false
    → (x.id == p.id) ≡ false
unfolding includes
distinct_head x [] rest p n = ground arith
distinct_head x (y ∷ front) rest p n = ground (arith, distinct_head x front rest p)

find_last_seen :
    (front rest : List ChatMessage) (p : ChatMessage)
    → Distinct (ids (front ++ p ∷ rest))
    → find_index (λ m. m.id == p.id) (front ++ p ∷ rest) ≡ some (length front)
unfolding find_index
find_last_seen [] rest p d = rw (==_refl p.id) refl
find_last_seen (x ∷ front) rest p (n, d) =
    let other : (x.id == p.id) ≡ false = distinct_head x front rest p n in
    rw (other, find_last_seen front rest p d) refl

last-behind :
    (front rest : List ChatMessage) (p q : ChatMessage)
    → last_message (front ++ p ∷ (rest ++ q ∷ [])) ≡ some q
unfolding last_message
last-behind [] [] p q = refl
last-behind [] (r ∷ rest) p q = last-behind [] rest r q
last-behind (x ∷ []) rest p q = last-behind [] rest p q
last-behind (x ∷ y ∷ front) rest p q = last-behind (y ∷ front) rest p q

eq_sym : (p q : ChatMessage) → (p.id == q.id) ≡ false → (q.id == p.id) ≡ false
eq_sym p q h = ground arith

last_apart :
    (front rest : List ChatMessage) (p q : ChatMessage)
    → Distinct (ids (front ++ p ∷ (rest ++ q ∷ [])))
    → (q.id == p.id) ≡ false
last_apart [] rest p q (n, d) = eq_sym p q (distinct_head p rest [] q n)
last_apart (x ∷ front) rest p q (n, d) = last_apart front rest p q d

messages_behind_lem :
    (front rest : List ChatMessage) (p : ChatMessage)
    → Distinct (ids (front ++ p ∷ rest))
    → messages_behind p.id (front ++ p ∷ rest) ≡ length rest
unfolding messages_behind
messages_behind_lem front rest p d =
    ap (behind (length (front ++ p ∷ rest))) (find_last_seen front rest p d)
    ∙ omega (arith, length-append front (p ∷ rest))

-- While the list is not scrolled to its end, messages that arrive behind the one that was the last
-- when the list was seen are counted, one for one, wherever that one stands now: the ids of the
-- messages are distinct, and the id that was the last is not empty.
pub count_new_messages_lem :
    (front rest : List ChatMessage) (p q : ChatMessage) (v : View)
    → Distinct (ids (front ++ p ∷ (rest ++ q ∷ [])))
    → (p.id == []) ≡ false
    → v.should_auto_scroll ≡ false
    → v.last_seen_message_id ≡ some p.id
    → let t = count_new_messages (front ++ p ∷ (rest ++ q ∷ [])) v in
      (t.new_message_count ≡ v.new_message_count + suc (length rest))
      × (t.last_seen_message_id ≡ some q.id)
unfolding count_new_messages see_messages count_behind
count_new_messages_lem front rest p q v d n away seen =
    let msgs = front ++ p ∷ (rest ++ q ∷ []) in
    let newer = messages_behind_lem front (rest ++ q ∷ []) p d ∙ length-append rest (q ∷ []) in
    let last_is = last-behind front rest p q in
    let apart = last_apart front rest p q d in ground (arith, n, away, seen, newer, last_is, apart)
