-- ===== src/Merge/Tests.antt =====
-- Merges at concrete windows.
use token_dance_chat.Base.{
  ◌≡◌, refl, List, [], ◌∷◌, none, some, arith, lit, includes, text_dec, starts_with, find_index,
}
use token_dance_chat.Message.{ChatMessage, chat_message}
use token_dance_chat.Merge.{
  prepend, append, merge_message_window, replace_at, client_position, is_optimistic, is_twin,
  scan_down, twin_position, echo_position, merge_one, merge_loop, cap_window, finish_merge,
}
use token_dance_chat.Merge.Spec.{IsMerge, merge_message_window-IsMerge}
use token_dance_chat.Merge.Dedup.{HasDistinctIds, merge_page-HasDistinctIds}
use token_dance_chat.Merge.Echo.{merge_echo, merge_echo_duplicates}

program : Unit {0}
unfolding replace_at client_position is_optimistic is_twin scan_down twin_position echo_position
    merge_one merge_loop cap_window finish_merge merge_message_window text_dec starts_with includes
    find_index
program = tt

abbrev alice : ChatMessage
alice = chat_message (lit "1") (lit "alice") (lit "hi") 1000

abbrev bob : ChatMessage
bob = chat_message (lit "2") (lit "bob") (lit "hello") 2000

abbrev sent : ChatMessage
sent = record (chat_message (lit "optimistic_7") (lit "alice") (lit "yo") 3000) {
  client_message_id = some (lit "optimistic_7");
  reactions = some ((lit "+1", lit "bob" ∷ []) ∷ []);
}

abbrev echo : ChatMessage
echo = record (chat_message (lit "3") (lit "alice") (lit "yo") 3200) {
  client_message_id = some (lit "optimistic_7");
}

abbrev window : List ChatMessage
window = alice ∷ sent ∷ []

echo_in_place :
    (merge_message_window window (echo ∷ []) append 500 4).messages
    ≡ alice ∷ record echo { reactions = sent.reactions } ∷ []
unfolding program
echo_in_place = refl

-- Without its client id the echo is found as a twin.
twin_in_place :
    (merge_message_window window
      (record echo { client_message_id = none } ∷ bob ∷ bob ∷ [])
      append
      500
      4).messages
    ≡ alice ∷ record echo { client_message_id = none; reactions = sent.reactions } ∷ bob ∷ []
unfolding program
twin_in_place = refl

capped : (merge_message_window window (bob ∷ []) append 2 4).messages ≡ sent ∷ bob ∷ []
unfolding program
capped = refl

merge_message_window-IsMerge_example :
    IsMerge window
      (bob ∷ echo ∷ [])
      prepend
      2
      4
      (merge_message_window window (bob ∷ echo ∷ []) prepend 2 4)
merge_message_window-IsMerge_example =
    merge_message_window-IsMerge window (bob ∷ echo ∷ []) prepend 2 4 (omega arith)

merge_page-HasDistinctIds_example :
    HasDistinctIds (merge_message_window window (bob ∷ alice ∷ bob ∷ []) append 500 4).messages
unfolding program
merge_page-HasDistinctIds_example =
    merge_page-HasDistinctIds window (bob ∷ alice ∷ bob ∷ []) append 500 4 (omega arith)
      (refl, (refl, (refl, tt))) (refl, (refl, tt))

merge_echo_example : (merge_message_window window (echo ∷ []) append 500 4).revision ≡ 4
unfolding program
merge_echo_example = (merge_echo window echo 1 500 4 (omega arith) refl).4

merge_echo_duplicates_example :
    ¬ HasDistinctIds
      (merge_message_window
        (sent ∷ alice ∷ [])
        (record echo { id = lit "1" } ∷ [])
        append
        500
        4).messages
unfolding program
merge_echo_duplicates_example =
    merge_echo_duplicates (sent ∷ alice ∷ []) (record echo { id = lit "1" }) alice 0 1 500 4
      (omega arith) refl (omega arith) refl refl
