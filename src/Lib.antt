-- ===== src/Lib.antt =====
-- TokenDanceChat: the core of the browser client.
--
-- The client keeps one WebSocket to the chat server and one store of what is on screen. Frames of
-- the server reach the store through handlers; pages of messages are merged into the window of
-- messages by a function of their own. The parts and their files:
--
-- - frontend/src/lib/api.ts, the data: Message (ChatMessage, PollData, UserStatus, CustomEmoji) and
--   Wire (frames as JSON objects).
-- - frontend/src/stores/mergeMessageWindow.ts: Merge. `merge_message_window` is
--   `mergeMessageWindow`; `merge_one` is one round of its loop, `replace_at` the replacement of an
--   optimistic entry, `cap_window` the cap. Merge/Spec states the contract without the loop: Position
--   says which entry a message echoes, Rounds is the relation of what the messages do to a window;
--   Window and Result lead to it; Novel and Dedup are about ids, Echo about optimistic entries.
-- - frontend/src/lib/api.ts, class ChatAPI: ChatApi. The fields of the object are a record; Socket
--   has one function for each method (connect, send, flushOutboundQueue, attemptReconnect, on,
--   dispatch, disconnect) and for each callback (onopen, onmessage, onclose, onerror and the two
--   timers); Commands has the frame of each method that sends one; Steps has the events and their
--   runs. Backoff is the delay of a reconnection, Queue and
--   Promises are invariants of runs, Reconnect, Delivery and Losses are about
--   single operations, Sending about commands.
-- - frontend/src/stores/chatStore.ts: Store. The state is a record; Messages, Conversations and
--   People have one function for each action of the store; Actions has the runs of actions. Bounds
--   and Runs are about sizes, SystemLines about `addSystemMessage`, Receipts about
--   `markMessagesReadBy`, Unread about the counts, Session about localStorage and `reset`, Blocked
--   about blocked users.
-- - frontend/src/hooks/useWebSocket.ts: Handlers. Stream is the handler of "stream" frames, with
--   the interval that forgets old ones; Placeholder is about its end and Accumulate about its
--   text. Frames has the handlers of messages, history, deletions, edits, pins, kicks and one
--   notification preference; Roster has those of people, lists, polls and reconnections; Mentions
--   has mentions, the list of preferences and `markRead`; Rooms, Muting and Flapping are about
--   handlers. TypingTimers has the signs of typing and their timers, Presence `user_status`,
--   Session what the hook gives to the components (connect, sendMessage, markRead), the title of
--   the page and the subscription that the components share.
-- - frontend/src/components/MessageTranscript.tsx: Transcript. The refs and the React state are one
--   record, the handlers and effects functions on it. Groups is `buildMessageGroups` and Grouping
--   its contract; Paging is the loading of older messages, Requests its runs and Positions the saved
--   positions; Display has the visible part and the reply counts; Divider, Badge, Selection and
--   Deletion are named for what they model.
-- - frontend/src/components/ChatInput.tsx: Composer. Content has the effects that follow the text,
--   Send `handleSend`, Keys `handleKeyDown`, Steps the events and their runs. Balance, Handling,
--   Typing, OneSend, Draft and Reload are about the runs, Editing about the edit of the last message;
--   Mention is the mention before the cursor and its completion, Suggest and Complete are its
--   suggestions.
-- - frontend/src/components/MessageBubble.tsx: Bubble. CodeBlocks is `parseContentForCodeBlocks`,
--   Parts and Blocks are about it; Segments is the loop over the mentions in `renderSegment`,
--   Spelling and Torn are about it.
-- - frontend/src/components/PollMessage.tsx: Poll; OneVote is about the runs of its clicks and votes.
-- - frontend/src/components/ConversationSearch.tsx: Search, with its Results and its Index.
-- - frontend/src/hooks/useTouchGestures.ts: Gestures. Press, Pull and Swipe are the three hooks,
--   PressOnce and SwipeRest are about their runs.
-- - frontend/src/lib/api.ts, the session token and the calls over HTTP: Http. Calls are those that
--   give an empty answer where they fail, Auth those that are rejected; Failures is about both.
-- - frontend/src/lib/assistantRegistry.ts: Assistants. frontend/src/lib/utils.ts: Hash.
-- - Base has the shared notation: tests, texts, lists, objects as association lists.
--
-- What the browser decides is an argument: the `readyState` of a socket, the id of a timer, a
-- random number as a fraction `n / d`, the time, whether a write to localStorage succeeds, whether
-- a frame parses. What the object does to the outside is its `trace`. A socket and a join promise
-- are named by the generation of their `connect`. Timestamps are whole milliseconds. A text is the
-- list of its code units (in Bubble/Segments, of its code points); what the browser does with
-- Unicode (`trim`, `toLowerCase`, the letters of a pattern) is an argument. The effects of React
-- run after the handler that changed what they name. In runs of events each event finds what is
-- rendered after the one before; `handle_scroll` takes the state last rendered as an argument.
-- The loops over the blocks of code and over the mentions of a text take fuel, one more than the
-- text is long, and are shown to end with it. Every other loop of the modelled code runs over a
-- list or counts down, so it is a structural recursion and no fuel is needed; the caps are those
-- of the code: 500 and 1000 messages, 100 waiting frames, ten attempts, 30 positions, 20 results,
-- ten suggestions.
--
-- Not modelled: the rendering of the components and of ChatLayout, the translations, the times
-- printed by utils.ts, sound, and the server in backend/.
pub mod Assistants
pub mod Base
pub mod Bubble
pub mod ChatApi
pub mod Composer
pub mod Gestures
pub mod Handlers
pub mod Hash
pub mod Http
pub mod Merge
pub mod Message
pub mod Poll
pub mod Search
pub mod Store
pub mod Transcript
pub mod Wire
