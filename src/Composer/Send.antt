-- ===== src/Composer/Send.antt =====
-- Sending the text, or the new text of a message that is being edited.
use mathlib.Core.Option.{get_or}
use token_dance_chat.Base.{
  Bool, true, false, not, ◌||◌, List, [], ◌∷◌, Option, none, some, Text, ◌==◌, if◌then◌else◌,
}
use token_dance_chat.Composer.{Composer, Effect, clears_reply, shows_auth, sends_text, edits_text}
use token_dance_chat.Composer.Content.{has_content, set_content, stop_typing}

-- An id that is the empty text counts as none.
unfoldable pub is_editing : Option Text → Bool
is_editing none = false
is_editing (some id) = not (id == [])

unfoldable pub submission : Option Text → Text → Effect
submission none trimmed = sends_text trimmed
submission (some id) trimmed = if id == [] then sends_text trimmed else edits_text id trimmed

-- The text that comes back after the sending.
unfoldable pub restored : Composer → Text
restored s = if is_editing s.editing_message_id then get_or s.edit_stash [] else []

-- `immediateContent ?? textareaRef.current?.value ?? content`
unfoldable pub raw_content : Option Text → Option Text → Text → Text
raw_content (some immediate) value content = immediate
raw_content none (some value) content = value
raw_content none none content = content

-- The flags, the edit and the draft, as the sending sets them.
unfoldable pub start_sending : Composer → Composer
start_sending s = record s {
  sending = true;
  is_submitting = true;
  edit_stash = none;
  editing_message_id = if is_editing s.editing_message_id then none else s.editing_message_id;
  draft = none;
}

module _ (trim : Text → Text) where
  -- From `sendingRef.current = true` on.
  unfoldable pub submit : Text → Composer → Composer × List Effect
  submit trimmed s =
      let cleared = set_content trim (restored s) (start_sending s) in
      let (stopped, stops) = stop_typing trim (record cleared { pulse_button = true }) in
      (stopped, submission s.editing_message_id trimmed ∷ clears_reply ∷ stops)

  unfoldable pub handle_send : Text → Text → Composer → Composer × List Effect
  handle_send raw username s =
      if s.sending || not (has_content trim raw)
      then (s, [])
      else if username == []
      then (s, shows_auth ∷ [])
      else if not s.connected
      then (record s { disconnect_feedback = true }, [])
      else submit (trim raw) s

-- The callbacks of the timers; all but the second check that the component is still there.
unfoldable pub on_release_timer : Composer → Composer
on_release_timer s = record s { sending = false; is_submitting = false }

unfoldable pub on_pulse_timer : Composer → Composer
on_pulse_timer s = record s { pulse_button = false }

unfoldable pub on_feedback_timer : Composer → Composer
on_feedback_timer s = record s { disconnect_feedback = false }

-- A paste of files, and the timer that takes the hint away.
unfoldable pub handle_paste : Bool → Composer → Composer
handle_paste has_files s = if has_files then record s { paste_hint = true } else s

unfoldable pub on_paste_timer : Composer → Composer
on_paste_timer s = record s { paste_hint = false }
