-- ===== src/Transcript/Tests.antt =====
-- The theorems on the list of messages at concrete states.
use mathlib.Core.Option.{get_or}
use token_dance_chat.Base.{
  ℕ, ◌+◌, ◌≡◌, refl, true, false, List, [], ◌∷◌, ◌++◌, some, lit, text_dec, lookup, includes,
}
use token_dance_chat.Message.{ChatMessage, chat_message}
use token_dance_chat.ChatApi.{ReadyState, ChatApi, init}
use token_dance_chat.ChatApi.Socket.{is_open}
use token_dance_chat.ChatApi.Delivery.{sent}
use token_dance_chat.Transcript.{View, fresh_view}
use token_dance_chat.Transcript.Groups.{build_message_groups}
use token_dance_chat.Transcript.Grouping.{IsGrouping, build_message_groups-IsGrouping}
use token_dance_chat.Transcript.Paging.{Container, restore_scroll, retry_load, on_retry_timeout}
use token_dance_chat.Transcript.Requests.{ViewEvent, scrolls, times_out, retry_load-fails}
use token_dance_chat.Transcript.Display.{
  run_counts, last_counted, replies_to, run_counts-last_counted,
}
use token_dance_chat.Transcript.Badge.{count_new_messages, count_new_messages_lem}
use token_dance_chat.Transcript.Deletion.{handle_batch_delete, deletions, handle_batch_delete_lem}

abbrev first : ChatMessage
first = chat_message (lit "1") (lit "alice") (lit "hi") 1000

abbrev second : ChatMessage
second = record (chat_message (lit "2") (lit "bob") (lit "hello") 2000) {
  reply_to_id = some (lit "1");
}

abbrev third : ChatMessage
third = chat_message (lit "3") (lit "alice") (lit "fine") 3000

abbrev shown : List ChatMessage
shown = first ∷ second ∷ third ∷ []

build_message_groups-IsGrouping_example :
    IsGrouping shown (lit "alice") (build_message_groups shown (lit "alice"))
build_message_groups-IsGrouping_example = build_message_groups-IsGrouping shown (lit "alice")

-- At the top, twice, and then nothing comes.
abbrev at_top : Container
at_top = record { scroll_top = 0; scroll_height = 4000; client_height = 600 }

abbrev scrolling : List ViewEvent
scrolling =
    scrolls (lit "public") at_top shown false
    ∷ scrolls (lit "public") at_top shown false
    ∷ times_out
    ∷ []

abbrev after_error : View
after_error = record fresh_view { pagination_error = true }

retry_load-fails_example :
    let t = restore_scroll at_top shown (retry_load (second ∷ third ∷ []) false after_error) in
    (t.0.loading_older ≡ true) × (t.1 ≡ 0) × ((on_retry_timeout t.0).pagination_error ≡ true)
unfolding fresh_view
retry_load-fails_example =
    retry_load-fails second (third ∷ []) at_top shown after_error refl refl refl

run_counts-last_counted_example :
    get_or
      (lookup (lit "1") (run_counts (shown ∷ [] ∷ shown ∷ []) fresh_view).cached_reply_counts)
      0
    ≡ replies_to (lit "1") (last_counted (shown ∷ [] ∷ shown ∷ []) [])
unfolding text_dec
run_counts-last_counted_example = run_counts-last_counted (shown ∷ [] ∷ shown ∷ []) (lit "1") refl

-- Scrolled away, with the first message seen last.
abbrev away : View
away = record fresh_view { should_auto_scroll = false; last_seen_message_id = some (lit "1") }

count_new_messages_lem_example :
    ((count_new_messages shown away).new_message_count ≡ away.new_message_count + 2)
    × ((count_new_messages shown away).last_seen_message_id ≡ some (lit "3"))
unfolding text_dec includes
count_new_messages_lem_example =
    count_new_messages_lem [] (second ∷ []) first third away (refl, (refl, (refl, tt))) refl refl
      refl

abbrev ready : ℕ → ReadyState
ready g = ReadyState.open_state

abbrev open_api : ChatApi
open_api = record init { ws = some 1 }

abbrev selecting : View
selecting = record fresh_view { select_mode = true; selected_ids = lit "1" ∷ lit "2" ∷ [] }

handle_batch_delete_lem_example :
    let t = handle_batch_delete ready shown (lit "alice") selecting open_api in
    (sent t.1.trace ≡ sent open_api.trace ++ deletions (lit "alice") selecting.selected_ids shown)
    × (t.0.selected_ids ≡ [])
    × (t.0.select_mode ≡ false)
unfolding is_open init
handle_batch_delete_lem_example =
    handle_batch_delete_lem ready shown (lit "alice") selecting open_api refl refl
