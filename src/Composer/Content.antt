-- ===== src/Composer/Content.antt =====
-- The text and the effects that follow it: the draft, the pulse of the button, the signs of typing.
use mathlib.Core.Option.{get_or}
use token_dance_chat.Base.{
  Bool, true, false, not, ◌&&◌, ◌||◌, List, [], ◌∷◌, Option, none, some, Text, ◌==◌, ltb, length,
  if◌then◌else◌,
}
use token_dance_chat.Composer.{Composer, Effect, starts_typing, stops_typing}

abbrev pub same : Bool → Bool → Bool
same true b = b
same false b = not b

-- The effect that opens the suggestions where there are some, and begins with the first.
unfoldable pub sync_mention : List Text → Composer → Composer
sync_mention filtered s = record s { mention_active = ltb 0 (length filtered); mention_index = 0 }

-- The cleanup of the draft's timer on unmount.
unfoldable pub clear_save : Composer → Composer
clear_save s = record s { save_pending = none }

module _ (trim : Text → Text) where
  abbrev pub has_content : Text → Bool
  has_content content = not (trim content == [])

  -- The effect that saves the draft: it starts the timer anew.
  unfoldable pub schedule_save : Composer → Composer
  schedule_save s = if s.draft_loaded then record s { save_pending = some s.content } else s

  -- What the timer writes; a write that fails is ignored.
  unfoldable pub write_draft : Bool → Text → Option Text → Option Text
  write_draft true content draft = if has_content content then some content else none
  write_draft false content draft = if has_content content then draft else none

  unfoldable pub save_draft : Bool → Option Text → Composer → Composer
  save_draft writable none s = s
  save_draft writable (some content) s = record s {
    save_pending = none;
    draft = write_draft writable content s.draft;
  }

  -- The callback of the timer of 500 ms.
  unfoldable pub on_save_timer : Bool → Composer → Composer
  on_save_timer writable s = save_draft writable s.save_pending s

  -- The effect that lets the button pulse when the text becomes not empty.
  unfoldable pub pulse_on_content : Composer → Composer
  pulse_on_content s =
      if has_content s.content
      then if s.had_content then s else record s { pulse_button = true; had_content = true }
      else record s { had_content = false }

  -- `setContent` with these two effects.
  unfoldable pub set_content : Text → Composer → Composer
  set_content content s =
      if content == s.content
      then s
      else pulse_on_content (schedule_save (record s { content = content }))

  -- The effects of mounting: the draft is loaded, and an item that cannot be read is an empty text.
  unfoldable pub load_draft : Bool → Composer → Composer
  load_draft readable s =
      let saved = if readable then get_or s.draft [] else [] in
      set_content saved (schedule_save (record s { draft_loaded = true }))

  -- The effect that tells the others of the typing.
  unfoldable pub sync_typing : Composer → Composer × List Effect
  sync_typing s =
      let filled = has_content s.content in
      if filled && not s.is_composing && s.connected && not s.typing_sent
      then (record s { typing_sent = true }, starts_typing ∷ [])
      else if (not filled || not s.connected) && s.typing_sent
      then (record s { typing_sent = false }, stops_typing ∷ [])
      else (s, [])

  -- It runs where the text, the composition or the connection has changed from `old`.
  unfoldable pub resync : Composer → Composer → Composer × List Effect
  resync old s =
      if (s.content == old.content)
        && same s.is_composing old.is_composing
        && same s.connected old.connected
      then (s, [])
      else sync_typing s

  -- The cleanup of the typing on unmount.
  unfoldable pub stop_typing : Composer → Composer × List Effect
  stop_typing s =
      if s.typing_sent then (record s { typing_sent = false }, stops_typing ∷ []) else (s, [])
