-- ===== src/Composer/Keys.antt =====
-- The keys of the field.
use mathlib.Core.Option.{get_or}
use token_dance_chat.Base.{
  ℕ, ◌+◌, ◌-◌, min, Bool, false, not, ◌&&◌, ◌||◌, List, [], ◌∷◌, ◌++◌, Option, none, some, or_else,
  Text, ◌==◌, length, get_elem?, take, drop, if◌then◌else◌,
}
use token_dance_chat.Message.{ChatMessage}
use token_dance_chat.Composer.{Composer, Effect, clears_reply}
use token_dance_chat.Composer.Content.{set_content}
use token_dance_chat.Composer.Send.{is_editing, handle_send}

pub data Key : Type 0 where
  arrow_down arrow_up enter escape other_key : Key

-- A key with what the handler reads: `value` is the field's, `start_pos` where the mention that is
-- being written begins, `filtered` the suggestions for it.
pub record KeyPress : Type 0 where
  pub key : Key
  pub shift : Bool
  pub composing : Bool
  pub value : Text
  pub selection_start : ℕ
  pub start_pos : Option ℕ
  pub filtered : List Text
  pub username : Text
  pub replying : Bool
  pub messages : List ChatMessage

-- The text with the mention, where there is one to complete.
unfoldable pub mention_text : Option ℕ → ℕ → Text → Text → Text
mention_text none cursor user content = content
mention_text (some start) cursor user content =
    take start content ++ (b'@' ∷ user) ++ (b' ' ∷ drop cursor content)

-- `content.slice(0, start) + emoji + content.slice(end)`
unfoldable pub splice : ℕ → ℕ → Text → Text → Text
splice start end emoji content = take start content ++ (emoji ++ drop end content)

-- Whether `to` is set.
abbrev is_private : Option Text → Bool
is_private none = false
is_private (some to) = not (to == [])

unfoldable pub is_editable : Text → ChatMessage → Bool
is_editable username m =
    (m.username == username) && not (get_or m.deleted false) && not (is_private m.to)

-- The loop from the end of the list.
unfoldable pub last_editable : Text → List ChatMessage → Option ChatMessage
last_editable username [] = none
last_editable username (m ∷ ms) =
    or_else (last_editable username ms) (if is_editable username m then some m else none)

module _ (trim : Text → Text) where
  unfoldable pub cancel_edit : Composer → Composer
  cancel_edit s =
      set_content trim (get_or s.edit_stash [])
        (record s { editing_message_id = none; edit_stash = none })

  unfoldable pub insert_mention : Option ℕ → ℕ → Text → Composer → Composer
  insert_mention none cursor user s = s
  insert_mention (some start) cursor user s =
      record (set_content trim (mention_text (some start) cursor user s.content) s) {
        mention_active = false;
        next_cursor = some (start + length user + 2);
      }

  unfoldable pub insert_emoji : ℕ → ℕ → Text → Composer → Composer
  insert_emoji start end emoji s = set_content trim (splice start end emoji s.content) s

  unfoldable pub start_edit : Option ChatMessage → Composer → Composer × List Effect
  start_edit none s = (s, [])
  start_edit (some m) s = (
    record (set_content trim m.content (record s { edit_stash = some s.content })) {
      editing_message_id = some m.id;
    },
    clears_reply ∷ [],
  )

  unfoldable pub complete : Option Text → KeyPress → Composer → Composer
  complete none e s = s
  complete (some user) e s =
      if user == [] then s else insert_mention e.start_pos e.selection_start user s

  -- The keys outside of the suggestions.
  unfoldable pub plain_key : Key → KeyPress → Composer → Composer × List Effect
  plain_key escape e s =
      if is_editing s.editing_message_id
      then (cancel_edit s, [])
      else if e.replying
      then (s, clears_reply ∷ [])
      else (s, [])
  plain_key enter e s =
      if not e.shift && not (s.is_composing || e.composing)
      then handle_send trim e.value e.username s
      else (s, [])
  plain_key arrow_up e s =
      if not e.shift && (s.content == []) && not s.mention_active
      then start_edit (last_editable e.username e.messages) s
      else (s, [])
  plain_key key e s = (s, [])

  -- The keys while there are suggestions.
  unfoldable pub mention_key : Key → KeyPress → Composer → Composer × List Effect
  mention_key arrow_down e s =
      (record s { mention_index = min (s.mention_index + 1) (length e.filtered - 1) }, [])
  mention_key arrow_up e s = (record s { mention_index = s.mention_index - 1 }, [])
  mention_key enter e s =
      if not e.shift && not (s.is_composing || e.composing)
      then (complete (get_elem? e.filtered s.mention_index) e s, [])
      else plain_key enter e s
  mention_key escape e s = (record s { mention_active = false }, [])
  mention_key key e s = plain_key key e s

  unfoldable pub handle_key_down : KeyPress → Composer → Composer × List Effect
  handle_key_down e s = if s.mention_active then mention_key e.key e s else plain_key e.key e s
