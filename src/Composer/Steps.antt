-- ===== src/Composer/Steps.antt =====
-- What can happen to the composer, each event followed by the effect of the typing.
use token_dance_chat.Base.{Bool, List, [], ◌∷◌, ◌++◌, Text}
use token_dance_chat.Composer.{Composer, Effect}
use token_dance_chat.Composer.Content.{
  on_save_timer, set_content, resync, stop_typing, sync_mention, clear_save,
}
use token_dance_chat.Composer.Send.{
  handle_send, on_release_timer, on_pulse_timer, on_feedback_timer, handle_paste, on_paste_timer,
}
use token_dance_chat.Composer.Keys.{KeyPress, cancel_edit, handle_key_down}

-- `suggests` is a change of the suggestions, which follow the text, the cursor and who is online.
pub data ComposerEvent : Type 0 where
  types : Text → ComposerEvent
  presses : KeyPress → ComposerEvent
  clicks_send : Text → Text → ComposerEvent
  clicks_cancel : ComposerEvent
  composes : Bool → ComposerEvent
  connects : Bool → ComposerEvent
  pastes : Bool → ComposerEvent
  saves : Bool → ComposerEvent
  suggests : List Text → ComposerEvent
  releases ends_pulse ends_feedback ends_hint unmounts : ComposerEvent

module _ (trim : Text → Text) where
  -- The handler of an event.
  unfoldable pub handle : ComposerEvent → Composer → Composer × List Effect
  handle (types content) s = (set_content trim content s, [])
  handle (presses e) s = handle_key_down trim e s
  handle (clicks_send raw username) s = handle_send trim raw username s
  handle clicks_cancel s = (cancel_edit trim s, [])
  handle (composes b) s = (record s { is_composing = b }, [])
  handle (connects b) s = (record s { connected = b }, [])
  handle (pastes has_files) s = (handle_paste has_files s, [])
  handle (saves writable) s = (on_save_timer trim writable s, [])
  handle releases s = (on_release_timer s, [])
  handle ends_pulse s = (on_pulse_timer s, [])
  handle ends_feedback s = (on_feedback_timer s, [])
  handle ends_hint s = (on_paste_timer s, [])
  handle (suggests filtered) s = (sync_mention filtered s, [])
  handle unmounts s = stop_typing trim (clear_save s)

  unfoldable pub composer_step : ComposerEvent → Composer → Composer × List Effect
  composer_step e s =
      let (next, out) = handle e s in
      let (synced, more) = resync trim s next in (synced, out ++ more)

  -- The effects of a run, in order, and the state after it.
  unfoldable pub effects : List ComposerEvent → Composer → List Effect
  effects [] s = []
  effects (e ∷ es) s = (composer_step e s).1 ++ effects es (composer_step e s).0

  unfoldable pub compose : List ComposerEvent → Composer → Composer
  compose [] s = s
  compose (e ∷ es) s = compose es (composer_step e s).0
