-- ===== src/Transcript/Display.antt =====
-- What the list shows of the messages: the visible ones, the new ones, and the number of replies.
use mathlib.Core.Option.{get_or}
use token_dance_chat.Base.{
  ℕ, ◌+◌, ◌-◌, ◌≡◌, refl, true, false, ◌||◌, List, [], ◌∷◌, ◌++◌, Option, none, some, Text, Dict,
  ◌==◌, lookup, insert, lookup-insert, length, length-drop, take, drop, take-append-drop, ltb, leb,
  eqb, arith, Bool-cases, inl, inr, if◌then◌else◌,
}
use token_dance_chat.Message.{ChatMessage}
use token_dance_chat.Transcript.{View, fresh_view}

abbrev pub max_visible_messages : ℕ
max_visible_messages = 200

-- `messages.slice(-200)`, unless all are shown.
unfoldable pub visible_messages : List ChatMessage → View → List ChatMessage
visible_messages messages v =
    if v.show_all_messages || leb (length messages) max_visible_messages
    then messages
    else drop (length messages - max_visible_messages) messages

unfoldable pub hidden_count : List ChatMessage → View → ℕ
hidden_count messages v = length messages - length (visible_messages messages v)

unfoldable pub handle_load_older : List ChatMessage → View → View
handle_load_older messages v =
    if v.show_all_messages
    then v
    else if eqb (hidden_count messages v) 0
    then v
    else record v { is_loading_more = true; show_all_messages = true }

-- The callback of its timeout of 500 ms.
unfoldable pub end_load_older : View → View
end_load_older v = record v { is_loading_more = false }

-- The ids of the messages of the last two seconds.
unfoldable pub new_message_ids : ℕ → List ChatMessage → List Text
new_message_ids now [] = []
new_message_ids now (m ∷ ms) =
    let rest = new_message_ids now ms in if ltb now (m.timestamp + 2000) then m.id ∷ rest else rest

-- `if (id) counts[id] = (counts[id] || 0) + 1`
unfoldable pub count_reply : Option Text → Dict ℕ → Dict ℕ
count_reply none counts = counts
count_reply (some id) counts =
    if id == [] then counts else insert id (get_or (lookup id counts) 0 + 1) counts

unfoldable pub count_replies : List ChatMessage → Dict ℕ → Dict ℕ
count_replies [] counts = counts
count_replies (m ∷ ms) counts =
    count_replies ms (count_reply m.thread_id (count_reply m.reply_to_id counts))

-- `replyCounts`: counted again when the number of messages is another one than before.
unfoldable pub reply_counts : List ChatMessage → View → View
reply_counts messages v = if eqb (length messages) v.prev_msg_count then v else record v {
  prev_msg_count = length messages;
  cached_reply_counts = count_replies messages [];
}

-- The messages are those that are hidden, which are the oldest, and those that are visible.
pub visible_split :
    (messages : List ChatMessage) (v : View)
    → take (hidden_count messages v) messages ++ visible_messages messages v ≡ messages
unfolding hidden_count visible_messages
visible_split messages v =
    let n = length messages in
    elim (Bool-cases (v.show_all_messages || leb n max_visible_messages)) [
      | inl all_shown ↦
          let none_hidden : n - n ≡ 0 = omega arith in rw (all_shown, none_hidden) refl
      | inr some_hidden ↦
          let k = n - max_visible_messages in
          let hidden : n - length (drop k messages) ≡ k = omega (arith, length-drop k messages) in
          rw (some_hidden, hidden) (take-append-drop k messages)
    ]

-- An independent count of the replies to a message.
abbrev pub names : Option Text → Text → ℕ
names none id = 0
names (some k) id = if k == id then 1 else 0

abbrev pub replies_to : Text → List ChatMessage → ℕ
replies_to id [] = 0
replies_to id (m ∷ ms) = names m.reply_to_id id + names m.thread_id id + replies_to id ms

count_reply_lem :
    (o : Option Text) (id : Text) (counts : Dict ℕ)
    → (id == []) ≡ false
    → get_or (lookup id (count_reply o counts)) 0 ≡ get_or (lookup id counts) 0 + names o id
unfolding count_reply
count_reply_lem none id counts h = ground arith
count_reply_lem (some k) id counts h =
    ground (arith, lookup-insert k id (get_or (lookup k counts) 0 + 1) counts)

count_replies_lem :
    (ms : List ChatMessage) (id : Text) (counts : Dict ℕ)
    → (id == []) ≡ false
    → get_or (lookup id (count_replies ms counts)) 0
      ≡ get_or (lookup id counts) 0 + replies_to id ms
unfolding count_replies
count_replies_lem [] id counts h = ground arith
count_replies_lem (m ∷ ms) id counts h =
    let replied = count_reply_lem m.reply_to_id id counts h in
    let threaded = count_reply_lem m.thread_id id (count_reply m.reply_to_id counts) h in
    let rest =
      count_replies_lem ms id (count_reply m.thread_id (count_reply m.reply_to_id counts)) h in
    omega (arith, replied, threaded, rest)

-- The lists of messages that are shown one after the other.
unfoldable pub run_counts : List (List ChatMessage) → View → View
run_counts [] v = v
run_counts (messages ∷ later) v = run_counts later (reply_counts messages v)

-- The last of the lists that is not as long as the one counted before it; `counted` is the first.
abbrev pub last_counted : List (List ChatMessage) → List ChatMessage → List ChatMessage
last_counted [] counted = counted
last_counted (messages ∷ later) counted =
    last_counted later (if eqb (length messages) (length counted) then counted else messages)

-- The counts kept are those of the list.
abbrev Counts : List ChatMessage → View → Type 0
Counts counted v =
    (v.prev_msg_count ≡ length counted)
    × ((id : Text)
        → (id == []) ≡ false
        → get_or (lookup id v.cached_reply_counts) 0 ≡ replies_to id counted)

reply_counts-Counts :
    (messages counted : List ChatMessage) (v : View)
    → Counts counted v
    → Counts
        (if eqb (length messages) (length counted) then counted else messages)
        (reply_counts messages v)
unfolding reply_counts lookup
reply_counts-Counts messages counted v (n, h) =
    elim (Bool-cases (eqb (length messages) (length counted))) [
      | inl same ↦
          let here : eqb (length messages) v.prev_msg_count ≡ true = ground (arith, n, same) in
          rw (here, same) (n, h)
      | inr changed ↦
          let here : eqb (length messages) v.prev_msg_count ≡ false = ground (arith, n, changed) in
          rw (here, changed)
            (refl, λ id full. ground (arith, count_replies_lem messages id [] full))
    ]

run_counts-Counts :
    (lists : List (List ChatMessage)) (counted : List ChatMessage) (v : View)
    → Counts counted v
    → Counts (last_counted lists counted) (run_counts lists v)
unfolding run_counts
run_counts-Counts [] counted v h = h
run_counts-Counts (messages ∷ later) counted v h =
    run_counts-Counts later _ (reply_counts messages v) (reply_counts-Counts messages counted v h)

-- Over any lists of messages shown one after the other, each message is shown with as many replies
-- as messages name it, under an id that is not empty, once for a reply and once for a thread: not
-- always in the list on screen, but in the last one whose length was another than that of the list
-- counted before it.
pub run_counts-last_counted :
    (lists : List (List ChatMessage)) (id : Text)
    → (id == []) ≡ false
    → get_or (lookup id (run_counts lists fresh_view).cached_reply_counts) 0
      ≡ replies_to id (last_counted lists [])
unfolding fresh_view
run_counts-last_counted lists id h =
    (run_counts-Counts lists [] fresh_view (refl, λ k full. unfold lookup in refl)).1 id h
