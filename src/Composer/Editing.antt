-- ===== src/Composer/Editing.antt =====
-- Editing the last message from the keyboard.
use mathlib.Core.Option.{get_or}
use token_dance_chat.Base.{
  ◌≡◌, refl, ap, ◌∙◌, true, false, not, List, [], ◌∷◌, ◌++◌, none, some, Text, ◌==◌, text_dec,
  arith, All,
}
use token_dance_chat.Message.{ChatMessage}
use token_dance_chat.Composer.{Composer}
use token_dance_chat.Composer.Content.{schedule_save, pulse_on_content, set_content}
use token_dance_chat.Composer.Send.{is_editing}
use token_dance_chat.Composer.Keys.{
  KeyPress, arrow_up, escape, cancel_edit, start_edit, plain_key, handle_key_down, is_editable,
  last_editable,
}
use token_dance_chat.Composer.Balance.{set_content-fields}

last_editable-none :
    (username : Text) (ms : List ChatMessage)
    → All (λ m. is_editable username m ≡ false) ms
    → last_editable username ms ≡ none
unfolding last_editable
last_editable-none username [] h = refl
last_editable-none username (m ∷ ms) (n, h) = rw (last_editable-none username ms h, n) refl

-- The message that is edited is the last one that can be: no later one is the user's own, not
-- deleted and not private.
pub last_editable-append :
    (username : Text) (front rest : List ChatMessage) (m : ChatMessage)
    → is_editable username m ≡ true
    → All (λ x. is_editable username x ≡ false) rest
    → last_editable username (front ++ m ∷ rest) ≡ some m
unfolding last_editable
last_editable-append username [] rest m e h = rw (last_editable-none username rest h, e) refl
last_editable-append username (x ∷ front) rest m e h =
    rw (last_editable-append username front rest m e h) refl

module _ (trim : Text → Text) where
  abbrev up : KeyPress → KeyPress
  up e = record e { key = arrow_up; shift = false }

  abbrev esc : KeyPress → KeyPress
  esc e = record e { key = escape }

  set_content-mention_active :
      (content : Text) (s : Composer)
      → (set_content trim content s).mention_active ≡ s.mention_active
  unfolding set_content schedule_save pulse_on_content
  set_content-mention_active content s = ground arith

  start_edit_lem :
      (m : ChatMessage) (s : Composer)
      → let t = (start_edit trim (some m) s).0 in
        (t.content ≡ m.content)
        × (t.editing_message_id ≡ some m.id)
        × (t.edit_stash ≡ some s.content)
        × (t.mention_active ≡ s.mention_active)
  unfolding start_edit
  start_edit_lem m s =
      let before : Composer = record s { edit_stash = some s.content } in
      let (c, _, _, _, _, _, stash, _) = set_content-fields trim m.content before in
      (c, refl, stash, set_content-mention_active m.content before)

  cancel_edit_lem :
      (s : Composer) {stash : Text}
      → s.edit_stash ≡ some stash
      → let t = cancel_edit trim s in (t.content ≡ stash) × (t.editing_message_id ≡ none)
  unfolding cancel_edit
  cancel_edit_lem s e =
      let before : Composer = record s { editing_message_id = none; edit_stash = none } in
      let (c, _, _, _, _, _, _, id) = set_content-fields trim (get_or s.edit_stash []) before in
      (c ∙ ap (λ o. get_or o []) e, id)

  up_edits :
      (e : KeyPress) (m : ChatMessage) (s : Composer)
      → s.content ≡ []
      → s.mention_active ≡ false
      → last_editable e.username e.messages ≡ some m
      → handle_key_down trim (up e) s ≡ start_edit trim (some m) s
  unfolding handle_key_down plain_key text_dec
  up_edits e m s c a l = ground (arith, c, a, l)

  escape_cancels :
      (f : KeyPress) (s : Composer)
      → s.mention_active ≡ false
      → is_editing s.editing_message_id ≡ true
      → handle_key_down trim (esc f) s ≡ (cancel_edit trim s, [])
  unfolding handle_key_down plain_key
  escape_cancels f s a e = ground (arith, a, e)

  -- In an empty field, outside of the suggestions, the key up puts the last message that can be
  -- edited into the field, and escape then empties the field and ends the edit, and nothing is sent.
  -- The id of that message is not empty.
  pub escape-arrow_up :
      (e f : KeyPress) (m : ChatMessage) (s : Composer)
      → s.content ≡ []
      → s.mention_active ≡ false
      → (m.id == []) ≡ false
      → last_editable e.username e.messages ≡ some m
      → let t = (handle_key_down trim (up e) s).0 in
        let u = handle_key_down trim (esc f) t in
        ((t.content ≡ m.content) × (t.editing_message_id ≡ some m.id))
        × ((u.0.content ≡ []) × (u.0.editing_message_id ≡ none))
        × (u.1 ≡ [])
  unfolding is_editing
  escape-arrow_up e f m s c a n l =
      let t = (start_edit trim (some m) s).0 in
      let (text, id, stash, quiet) = start_edit_lem m s in
      let editing : is_editing t.editing_message_id ≡ true = ap is_editing id ∙ ap not n in
      let left = escape_cancels f t (quiet ∙ a) editing in
      let (back, none_left) = cancel_edit_lem t stash in
      let up_is = up_edits e m s c a l in
      rw up_is (
        (text, id),
        (ap (λ r. r.0.content) left ∙ back ∙ c, ap (λ r. r.0.editing_message_id) left ∙ none_left),
        ap (λ r. r.1) left,
      )
