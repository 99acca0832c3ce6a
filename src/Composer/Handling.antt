-- ===== src/Composer/Handling.antt =====
-- The handlers keep their flags true to what they send.
use mathlib.Core.Option.{get_or}
use token_dance_chat.Base.{
  ℕ, ◌≡◌, Bool, true, false, [], ◌∷◌, Option, none, some, Text, arith, get_elem?,
}
use token_dance_chat.Message.{ChatMessage}
use token_dance_chat.Composer.{Composer, clears_reply}
use token_dance_chat.Composer.Content.{
  set_content, stop_typing, sync_mention, clear_save, save_draft, on_save_timer,
}
use token_dance_chat.Composer.Send.{
  submission, submit, start_sending, handle_send, restored, on_pulse_timer, on_feedback_timer,
  handle_paste, on_paste_timer,
}
use token_dance_chat.Composer.Keys.{
  KeyPress, Key, arrow_down, arrow_up, enter, escape, other_key, cancel_edit, insert_mention,
  mention_text, start_edit, complete, plain_key, mention_key, handle_key_down, last_editable,
}
use token_dance_chat.Composer.Steps.{
  ComposerEvent, types, presses, clicks_send, clicks_cancel, composes, connects, pastes, saves,
  suggests, releases, ends_pulse, ends_feedback, ends_hint, unmounts, handle,
}
use token_dance_chat.Composer.Balance.{
  starts, stops, sends, starts-append, stops-append, sends-append, IsBalanced, set_content-fields,
  submission-sends, stop_typing-IsBalanced,
}

-- The timer that allows the next sending.
abbrev pub is_release : ComposerEvent → Bool
is_release releases = true
is_release _ = false

module _ (trim : Text → Text) where
  submit-IsBalanced :
      (trimmed : Text) (s : Composer) → s.sending ≡ false → IsBalanced s (submit trim trimmed s)
  unfolding submit start_sending
  submit-IsBalanced trimmed s h =
      let before = start_sending s in
      let pulsing : Composer = record (set_content trim (restored s) before) {
        pulse_button = true;
      } in
      let out = submission s.editing_message_id trimmed ∷ clears_reply ∷ [] in
      let after = (stop_typing trim pulsing).1 in
      ground (
        arith,
        h,
        set_content-fields trim (restored s) before,
        stop_typing-IsBalanced trim pulsing,
        submission-sends trim s.editing_message_id trimmed,
        starts-append out after,
        stops-append out after,
        sends-append out after,
      )

  handle_send-IsBalanced :
      (raw username : Text) (s : Composer) → IsBalanced s (handle_send trim raw username s)
  unfolding handle_send starts stops sends
  handle_send-IsBalanced raw username s = ground (arith, submit-IsBalanced (trim raw) s)

  cancel_edit-IsBalanced : (s : Composer) → IsBalanced s (cancel_edit trim s, [])
  unfolding cancel_edit starts stops sends
  cancel_edit-IsBalanced s =
      let before : Composer = record s { editing_message_id = none; edit_stash = none } in
      ground (arith, set_content-fields trim (get_or s.edit_stash []) before)

  start_edit-IsBalanced :
      (o : Option ChatMessage) (s : Composer) → IsBalanced s (start_edit trim o s)
  unfolding start_edit starts stops sends
  start_edit-IsBalanced none s = ground arith
  start_edit-IsBalanced (some m) s =
      let before : Composer = record s { edit_stash = some s.content } in
      ground (arith, set_content-fields trim m.content before)

  insert_mention-IsBalanced :
      (o : Option ℕ) (cursor : ℕ) (user : Text) (s : Composer)
      → IsBalanced s (insert_mention trim o cursor user s, [])
  unfolding insert_mention starts stops sends
  insert_mention-IsBalanced none cursor user s = ground arith
  insert_mention-IsBalanced (some start) cursor user s =
      ground (arith, set_content-fields trim (mention_text (some start) cursor user s.content) s)

  complete-IsBalanced :
      (o : Option Text) (e : KeyPress) (s : Composer) → IsBalanced s (complete trim o e s, [])
  unfolding complete starts stops sends
  complete-IsBalanced none e s = ground arith
  complete-IsBalanced (some user) e s =
      ground (arith, insert_mention-IsBalanced e.start_pos e.selection_start user s)

  plain_key-IsBalanced :
      (k : Key) (e : KeyPress) (s : Composer) → IsBalanced s (plain_key trim k e s)
  unfolding plain_key starts stops sends
  plain_key-IsBalanced arrow_down e s = ground arith
  plain_key-IsBalanced arrow_up e s =
      ground (arith, start_edit-IsBalanced (last_editable e.username e.messages) s)
  plain_key-IsBalanced enter e s = ground (arith, handle_send-IsBalanced e.value e.username s)
  plain_key-IsBalanced escape e s = ground (arith, cancel_edit-IsBalanced s)
  plain_key-IsBalanced other_key e s = ground arith

  mention_key-IsBalanced :
      (k : Key) (e : KeyPress) (s : Composer) → IsBalanced s (mention_key trim k e s)
  unfolding mention_key starts stops sends
  mention_key-IsBalanced arrow_down e s = ground arith
  mention_key-IsBalanced arrow_up e s = ground arith
  mention_key-IsBalanced enter e s = ground (
    arith,
    complete-IsBalanced (get_elem? e.filtered s.mention_index) e s,
    plain_key-IsBalanced enter e s,
  )
  mention_key-IsBalanced escape e s = ground arith
  mention_key-IsBalanced other_key e s = plain_key-IsBalanced other_key e s

  save_draft-IsBalanced :
      (writable : Bool) (o : Option Text) (s : Composer)
      → IsBalanced s (save_draft trim writable o s, [])
  unfolding save_draft starts stops sends
  save_draft-IsBalanced writable none s = ground arith
  save_draft-IsBalanced writable (some content) s = ground arith

  pub handle-IsBalanced :
      (e : ComposerEvent) (s : Composer) → is_release e ≡ false → IsBalanced s (handle trim e s)
  unfolding handle starts stops sends on_save_timer handle_key_down on_pulse_timer on_feedback_timer
      handle_paste on_paste_timer clear_save sync_mention
  handle-IsBalanced (types content) s h = ground (arith, set_content-fields trim content s)
  handle-IsBalanced (presses e) s h =
      ground (arith, mention_key-IsBalanced e.key e s, plain_key-IsBalanced e.key e s)
  handle-IsBalanced (clicks_send raw username) s h = handle_send-IsBalanced raw username s
  handle-IsBalanced clicks_cancel s h = cancel_edit-IsBalanced s
  handle-IsBalanced (composes b) s h = ground arith
  handle-IsBalanced (connects b) s h = ground arith
  handle-IsBalanced (pastes b) s h = ground arith
  handle-IsBalanced (saves b) s h = save_draft-IsBalanced b s.save_pending s
  handle-IsBalanced releases s h = absurd (cc)
  handle-IsBalanced ends_pulse s h = ground arith
  handle-IsBalanced ends_feedback s h = ground arith
  handle-IsBalanced ends_hint s h = ground arith
  handle-IsBalanced (suggests filtered) s h = ground arith
  handle-IsBalanced unmounts s h = stop_typing-IsBalanced trim (record s { save_pending = none })
