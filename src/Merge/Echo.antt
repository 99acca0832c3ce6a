-- ===== src/Merge/Echo.antt =====
-- A message that replaces an entry: the echo of an optimistic one.
use token_dance_chat.Base.{
  ℕ, zero, suc, ◌≤◌, ◌<◌, ◌≡◌, ◌≢◌, refl, sym, ap, ◌∙◌, true, List, [], ◌∷◌, some, arith, Text,
  length, get_elem?, set, find_index, length-set, ==_refl, get_elem?_bound, get_elem?-set_self,
  get_elem?-set_ne, includes, Bool-cases, inl, inr, ◌==◌,
}
use token_dance_chat.Message.{ChatMessage}
use token_dance_chat.Merge.{
  append, MergeLoop, ids, echo_of, replace_at, client_position, echo_position, merge_loop,
  start_loop, merge_message_window,
}
use token_dance_chat.Merge.Position.{IsEchoAt, echo_position-IsEchoAt}
use token_dance_chat.Merge.Result.{merge_message_window-EndsIn, EndsIn-idle}
use token_dance_chat.Merge.Dedup.{HasDistinctIds}
use token_dance_chat.Merge.Window.{merge_one-echo, merge_loop-cons, merge_loop-nil}

replace_at_lem :
    (l : MergeLoop) (msg old : ChatMessage) (i : ℕ)
    → get_elem? l.messages i ≡ some old
    → ((replace_at l msg i).messages ≡ set l.messages i (echo_of msg old))
      × ((replace_at l msg i).new_messages ≡ l.new_messages)
unfolding replace_at
replace_at_lem l msg old i e = ground arith

-- The arrival of one echo in a window within the cap: the entry at the position that the search
-- gives is the first that the message names by its client id, or else the newest optimistic twin
-- of the same user and text, within five seconds, among the last five; it is replaced in place and
-- keeps its reactions, no other entry moves or changes, nothing is added, and the revision stays
-- as it was.
pub merge_echo :
    (current : List ChatMessage) (msg : ChatMessage) (i : ℕ) (cap revision : ℕ)
    → length current ≤ cap
    → echo_position current msg ≡ some i
    → let r = merge_message_window current (msg ∷ []) append cap revision in
      (old : ChatMessage) × IsEchoAt msg current i old
      × (r.messages ≡ set current i (record msg { reactions = old.reactions }))
      × (r.added_count ≡ 0)
      × (r.revision ≡ revision)
merge_echo current msg i cap revision h e =
    let (old, (at, echo)) = echo_position-IsEchoAt current msg i e in
    let l = merge_loop (start_loop current) (msg ∷ []) in
    let one : l ≡ replace_at (start_loop current) msg i =
      merge_loop-cons (start_loop current) msg []
      ∙ merge_loop-nil _
      ∙ merge_one-echo (start_loop current) msg e in
    let (messages, same) = replace_at_lem (start_loop current) msg old i at in
    let none_new : l.new_messages ≡ [] = ap (λ k. k.new_messages) one ∙ same in
    let kept : l.messages ≡ set current i (echo_of msg old) = ap (λ k. k.messages) one ∙ messages in
    let (result, count, revised) =
      EndsIn-idle l append cap revision _
        (merge_message_window-EndsIn current (msg ∷ []) append cap revision h) none_new
        (omega (arith, ap length kept, length-set current i (echo_of msg old))) in
    (old, (at, echo), result ∙ kept, count, revised)

find_index-some :
    (c : Text) (ms : List ChatMessage)
    → includes (ids ms) c ≡ true
    → (i : ℕ) × (find_index (λ m. m.id == c) ms ≡ some i)
unfolding find_index includes
find_index-some c [] h = cc
find_index-some c (m ∷ ms) h = elim (Bool-cases (m.id == c)) [
  | inl hit ↦ (0, rw hit refl)
  | inr miss ↦ let (i, e) = find_index-some c ms (ground arith) in (suc i, rw (miss, e) refl)
]

includes-set :
    (ms : List ChatMessage) (i : ℕ) (m : ChatMessage)
    → i < length ms
    → includes (ids (set ms i m)) m.id ≡ true
unfolding includes
includes-set [] i m h = elim h [ ]
includes-set (x ∷ ms) zero m h = ground (arith, ==_refl m.id)
includes-set (x ∷ ms) (suc i) m h = ground (arith, includes-set ms i m)

includes_at :
    (ms : List ChatMessage) (i : ℕ) (m : ChatMessage)
    → get_elem? ms i ≡ some m
    → includes (ids ms) m.id ≡ true
unfolding includes
includes_at [] i m e = cc
includes_at (x ∷ ms) zero m e = ground (arith, ==_refl m.id)
includes_at (x ∷ ms) (suc i) m e = ground (arith, includes_at ms i m e)

-- Among distinct ids an id has one position.
positions_eq :
    (ms : List ChatMessage) (i j : ℕ) (a b : ChatMessage)
    → HasDistinctIds ms
    → get_elem? ms i ≡ some a
    → get_elem? ms j ≡ some b
    → a.id ≡ b.id
    → i ≡ j
positions_eq [] i j a b d p q e = cc
positions_eq (x ∷ ms) zero zero a b d p q e = refl
positions_eq (x ∷ ms) zero (suc j) a b (n, d) p q e = absurd (ground (arith, includes_at ms j b q))
positions_eq (x ∷ ms) (suc i) zero a b (n, d) p q e = absurd (ground (arith, includes_at ms i a p))
positions_eq (x ∷ ms) (suc i) (suc j) a b (n, d) p q e = ap suc (positions_eq ms i j a b d p q e)

echo_position-client :
    (current : List ChatMessage) (msg : ChatMessage) (i : ℕ)
    → client_position current msg.client_message_id ≡ some i
    → echo_position current msg ≡ some i
unfolding echo_position
echo_position-client current msg i e = rw (e, echo_position)

client_position-cons :
    (current : List ChatMessage) (c : ℕ) (cs : Text)
    → client_position current (some (c ∷ cs)) ≡ find_index (λ m. m.id == (c ∷ cs)) current
unfolding client_position
client_position-cons current c cs = refl

-- The server's copy of a message whose client id, not empty, stands in a window within the cap as
-- an id: the window keeps its length, nothing is added, and the copy's id is in the window.
pub merge_echo_found :
    (current : List ChatMessage) (msg : ChatMessage) (c : Text) (cap revision : ℕ)
    → length current ≤ cap
    → msg.client_message_id ≡ some c
    → c ≢ []
    → includes (ids current) c ≡ true
    → let r = merge_message_window current (msg ∷ []) append cap revision in
      (length r.messages ≡ length current)
      × (r.added_count ≡ 0)
      × (includes (ids r.messages) msg.id ≡ true)
merge_echo_found current msg [] cap revision h e full there = absurd (full refl)
merge_echo_found current msg (c ∷ cs) cap revision h e full there =
    let (i, found) = find_index-some (c ∷ cs) current there in
    let p : echo_position current msg ≡ some i =
      echo_position-client current msg i
        (ap (client_position current) e ∙ client_position-cons current c cs ∙ found) in
    let (old, (at, _), messages, count, revised) = merge_echo current msg i cap revision h p in
    (
      ap length messages ∙ length-set current i (echo_of msg old),
      count,
      rw messages (includes-set current i (echo_of msg old) (get_elem?_bound current i at)),
    )

-- Where the echo's id stands already at another position than the entry it replaces, in a window
-- within the cap, the ids of the window are not distinct afterwards.
pub merge_echo_duplicates :
    (current : List ChatMessage) (msg other : ChatMessage) (i j cap revision : ℕ)
    → length current ≤ cap
    → echo_position current msg ≡ some i
    → i ≢ j
    → get_elem? current j ≡ some other
    → other.id ≡ msg.id
    → ¬ HasDistinctIds (merge_message_window current (msg ∷ []) append cap revision).messages
merge_echo_duplicates current msg other i j cap revision h e apart there same d =
    let (old, (at, _), messages, _, _) = merge_echo current msg i cap revision h e in
    apart (
      positions_eq _ i j (echo_of msg old) other d
        (rw messages
          (get_elem?-set_self current i (echo_of msg old) (get_elem?_bound current i at)))
        (rw messages (get_elem?-set_ne current (echo_of msg old) apart ∙ there)) (sym same))
