-- ===== src/Transcript/Paging.antt =====
-- Scrolling to the top: loading older messages, and keeping the place on the screen.
use token_dance_chat.Base.{
  ℕ, ◌+◌, ◌-◌, Bool, true, false, not, ◌&&◌, ◌||◌, List, [], ◌∷◌, Option, none, some, Text, Dict,
  ◌==◌, insert, erase, length, ltb, eqb, if◌then◌else◌,
}
use token_dance_chat.Message.{ChatMessage}
use token_dance_chat.Transcript.{View}

-- The scroll container.
pub record Container : Type 0 where
  pub scroll_top : ℕ
  pub scroll_height : ℕ
  pub client_height : ℕ

-- The id of the first message, or the empty text.
unfoldable pub first_id : List ChatMessage → Text
first_id [] = []
first_id (m ∷ ms) = m.id

-- The load is over, one way or another.
abbrev stop_loading : View → View
stop_loading v = record v {
  pending_scroll_restore = 0;
  first_message_id_before_load = [];
  loading_older = false;
}

-- The effect that runs when the conversation changes.
unfoldable pub switch_conversation : Text → View → View
switch_conversation key v = if v.prev_conversation == key then v else record (stop_loading v) {
  has_more = true;
  prev_conversation = key;
  new_message_count = 0;
  last_seen_message_id = none;
  pagination_error = false;
}

-- The listener of "tdchat:no-more-history".
unfoldable pub on_no_more_history : View → View
on_no_more_history v = record (stop_loading v) { has_more = false; pagination_error = false }

-- `scrollPositions.current.set(...)`, and the first entry goes when there are more than 30; a key
-- that is the empty text is not taken for one.
unfoldable pub evict_first : Dict ℕ → Dict ℕ
evict_first [] = []
evict_first ((k, p) ∷ d) = if k == [] then (k, p) ∷ d else erase k ((k, p) ∷ d)

unfoldable pub save_position : Text → ℕ → Dict ℕ → Dict ℕ
save_position key scroll_top positions =
    let saved = insert key scroll_top positions in
    if ltb 30 (length saved) then evict_first saved else saved

-- The timestamp from which older messages are asked for, if they are, by the state last rendered.
unfoldable pub load_request : Container → List ChatMessage → Bool → View → Option ℕ
load_request c [] disable_infinite_scroll v = none
load_request c (oldest ∷ ms) disable_infinite_scroll v =
    if ltb c.scroll_top 80 && v.has_more && not v.loading_older && not disable_infinite_scroll
    then some oldest.timestamp
    else none

unfoldable pub start_load : Option ℕ → Container → List ChatMessage → View → View
start_load none c messages v = v
start_load (some before) c messages v = record v {
  loading_older = true;
  pending_scroll_restore = c.scroll_height;
  first_message_id_before_load = first_id messages;
}

-- The state after `handleScroll`; `load_request` is what it sends, and a timeout of 5 s starts. The
-- callback is the one of the last rendering: whether there is more and whether a load is under way
-- it reads from `rendered`, the state as it was then.
unfoldable pub handle_scroll : Text → Container → List ChatMessage → Bool → View → View → View
handle_scroll key c messages disable_infinite_scroll rendered v =
    start_load (load_request c messages disable_infinite_scroll rendered) c messages (record v {
      scroll_positions = save_position key c.scroll_top v.scroll_positions;
      should_auto_scroll = ltb (c.scroll_height - c.scroll_top - c.client_height) 120;
    })

-- The callback of the timeout.
unfoldable pub on_load_timeout : View → View
on_load_timeout v =
    if v.loading_older then record (stop_loading v) { pagination_error = true } else v

-- The timestamp that the button after a failed load asks from; the button is there only then.
unfoldable pub retry_request : List ChatMessage → Bool → View → Option ℕ
retry_request [] disable_infinite_scroll v = none
retry_request (oldest ∷ ms) disable_infinite_scroll v =
    if v.pagination_error && not v.loading_older && not disable_infinite_scroll
    then some oldest.timestamp
    else none

unfoldable pub start_retry : List ChatMessage → View → View
start_retry [] v = record v { pagination_error = false }
start_retry (oldest ∷ ms) v = record v { pagination_error = false; loading_older = true }

unfoldable pub retry_load : List ChatMessage → Bool → View → View
retry_load messages disable_infinite_scroll v =
    if v.pagination_error && not v.loading_older && not disable_infinite_scroll
    then start_retry messages v
    else v

-- The callback of the timeout of 5 s that it starts.
unfoldable pub on_retry_timeout : View → View
on_retry_timeout v =
    if v.loading_older then record v { loading_older = false; pagination_error = true } else v

-- The layout effect, with the container as it is then; it gives the container's new `scrollTop`.
unfoldable pub restore_scroll : Container → List ChatMessage → View → View × ℕ
restore_scroll c messages v =
    if eqb v.pending_scroll_restore 0
      || ((first_id messages == v.first_message_id_before_load)
          && not (v.first_message_id_before_load == []))
    then (v, c.scroll_top)
    else (stop_loading v, c.scroll_top + c.scroll_height - v.pending_scroll_restore)
