-- ===== src/Composer/Reload.antt =====
-- Every handler keeps the draft, and loading it gives the text back.
use mathlib.Core.Option.{get_or}
use token_dance_chat.Base.{
  ℕ, ◌≡◌, refl, ap, ◌∙◌, subst, Bool, true, false, not, ◌&&◌, ◌||◌, List, [], ◌∷◌, Option, none,
  some, Text, ◌==◌, arith, if◌then◌else◌, Bool-cases, inl, inr, if_both, get_elem?,
}
use token_dance_chat.Message.{ChatMessage}
use token_dance_chat.Composer.{Composer, Effect, fresh_composer}
use token_dance_chat.Composer.Content.{
  has_content, sync_mention, schedule_save, load_draft, write_draft, save_draft, on_save_timer,
  resync,
}
use token_dance_chat.Composer.Send.{
  is_editing, handle_send, on_release_timer, on_pulse_timer, on_feedback_timer, handle_paste,
  on_paste_timer,
}
use token_dance_chat.Composer.Keys.{
  KeyPress, Key, arrow_down, arrow_up, enter, escape, other_key, cancel_edit, insert_mention,
  mention_text, start_edit, complete, plain_key, mention_key, handle_key_down, last_editable,
}
use token_dance_chat.Composer.Steps.{
  ComposerEvent, types, presses, clicks_send, clicks_cancel, composes, connects, pastes, saves,
  suggests, releases, ends_pulse, ends_feedback, ends_hint, unmounts, handle, composer_step,
  compose,
}
use token_dance_chat.Composer.Balance.{set_content-fields}
use token_dance_chat.Composer.Draft.{
  kept, Saves, IsKept, set_content-IsKept, IsAlike-IsKept, resync-IsAlike, submit-IsKept,
}

-- No write to localStorage fails, and the component stays.
abbrev pub is_written : ComposerEvent → Bool
is_written (saves writable) = writable
is_written unmounts = false
is_written _ = true

unfoldable pub all_written : List ComposerEvent → Bool
all_written [] = true
all_written (e ∷ es) = is_written e && all_written es

module _ (trim : Text → Text) (trim_empty : trim [] ≡ []) where
  handle_send-IsKept :
      (raw username : Text) (s : Composer)
      → IsKept trim s
      → IsKept trim (handle_send trim raw username s).0
  unfolding handle_send
  handle_send-IsKept raw username s k =
      let P = λ (r : Composer × List Effect). IsKept trim r.0 in
      if_both P (s.sending || not (has_content trim raw)) (λ _. k)
        (λ _.
          if_both P (username == []) (λ _. k)
            (λ _.
              if_both P (not s.connected) (λ _. k)
                (λ _. submit-IsKept trim trim_empty (trim raw) s k)))

  cancel_edit-IsKept : (s : Composer) → IsKept trim s → IsKept trim (cancel_edit trim s)
  unfolding cancel_edit
  cancel_edit-IsKept s (k, l, e) =
      set_content-IsKept trim (get_or s.edit_stash [])
        (record s { editing_message_id = none; edit_stash = none }) (k, l, tt)

  start_edit-IsKept :
      (o : Option ChatMessage) (s : Composer)
      → s.content ≡ []
      → IsKept trim s
      → IsKept trim (start_edit trim o s).0
  unfolding start_edit
  start_edit-IsKept none s c k = k
  start_edit-IsKept (some m) s c (k, l, e) =
      set_content-IsKept trim m.content (record s { edit_stash = some s.content }) (k, l, c)

  insert_mention-IsKept :
      (o : Option ℕ) (cursor : ℕ) (user : Text) (s : Composer)
      → IsKept trim s
      → IsKept trim (insert_mention trim o cursor user s)
  unfolding insert_mention
  insert_mention-IsKept none cursor user s k = k
  insert_mention-IsKept (some start) cursor user s k =
      set_content-IsKept trim (mention_text (some start) cursor user s.content) s k

  complete-IsKept :
      (o : Option Text) (e : KeyPress) (s : Composer)
      → IsKept trim s
      → IsKept trim (complete trim o e s)
  unfolding complete
  complete-IsKept none e s k = k
  complete-IsKept (some user) e s k = elim (Bool-cases (user == [])) [
    | inl empty ↦ rw empty k
    | inr named ↦ rw named (insert_mention-IsKept e.start_pos e.selection_start user s k)
  ]

  plain_key-IsKept :
      (key : Key) (e : KeyPress) (s : Composer)
      → IsKept trim s
      → IsKept trim (plain_key trim key e s).0
  unfolding plain_key
  plain_key-IsKept arrow_down e s k = k
  plain_key-IsKept other_key e s k = k
  plain_key-IsKept escape e s k =
      let P = λ (r : Composer × List Effect). IsKept trim r.0 in
      if_both P (is_editing s.editing_message_id) (λ _. cancel_edit-IsKept s k)
        (λ _. if_both P e.replying (λ _. k) (λ _. k))
  plain_key-IsKept enter e s k =
      if_both (λ (r : Composer × List Effect). IsKept trim r.0)
        (not e.shift && not (s.is_composing || e.composing))
        (λ _. handle_send-IsKept e.value e.username s k) (λ _. k)
  plain_key-IsKept arrow_up e s k =
      if_both (λ (r : Composer × List Effect). IsKept trim r.0)
        (not e.shift && (s.content == []) && not s.mention_active)
        (λ h. start_edit-IsKept (last_editable e.username e.messages) s (ground (arith, h)) k)
        (λ _. k)

  mention_key-IsKept :
      (key : Key) (e : KeyPress) (s : Composer)
      → IsKept trim s
      → IsKept trim (mention_key trim key e s).0
  unfolding mention_key
  mention_key-IsKept arrow_down e s k = k
  mention_key-IsKept arrow_up e s k = k
  mention_key-IsKept escape e s k = k
  mention_key-IsKept other_key e s k = plain_key-IsKept other_key e s k
  mention_key-IsKept enter e s k =
      if_both (λ (r : Composer × List Effect). IsKept trim r.0)
        (not e.shift && not (s.is_composing || e.composing))
        (λ _. complete-IsKept (get_elem? e.filtered s.mention_index) e s k)
        (λ _. plain_key-IsKept enter e s k)

  save_draft-IsKept :
      (o : Option Text) (s : Composer)
      → s.save_pending ≡ o
      → IsKept trim s
      → IsKept trim (save_draft trim true o s)
  unfolding save_draft write_draft
  save_draft-IsKept none s p k = k
  save_draft-IsKept (some content) s p (k, l, e) =
      (ap (kept trim) (subst (λ o. Saves trim o s.content s.draft) p k), l, e)

  handle-IsKept :
      (e : ComposerEvent) (s : Composer)
      → is_written e ≡ true
      → IsKept trim s
      → IsKept trim (handle trim e s).0
  unfolding handle on_save_timer handle_key_down handle_paste on_release_timer on_pulse_timer
      on_feedback_timer on_paste_timer sync_mention
  handle-IsKept (types content) s w k = set_content-IsKept trim content s k
  handle-IsKept (presses e) s w k =
      if_both (λ (r : Composer × List Effect). IsKept trim r.0) s.mention_active
        (λ _. mention_key-IsKept e.key e s k) (λ _. plain_key-IsKept e.key e s k)
  handle-IsKept (clicks_send raw username) s w k = handle_send-IsKept raw username s k
  handle-IsKept clicks_cancel s w k = cancel_edit-IsKept s k
  handle-IsKept (composes b) s w k = k
  handle-IsKept (connects b) s w k = k
  handle-IsKept (pastes true) s w k = k
  handle-IsKept (pastes false) s w k = k
  handle-IsKept (saves true) s w k = save_draft-IsKept s.save_pending s refl k
  handle-IsKept (saves false) s w k = absurd (cc)
  handle-IsKept releases s w k = k
  handle-IsKept ends_pulse s w k = k
  handle-IsKept ends_feedback s w k = k
  handle-IsKept ends_hint s w k = k
  handle-IsKept (suggests filtered) s w k = k
  handle-IsKept unmounts s w k = absurd (cc)

  or_blank :
      (content : Text)
      → get_or (kept trim content) [] ≡ (if has_content trim content then content else [])
  or_blank content = ground arith

  -- Over any run the draft is kept: the timer will save the text, or it is saved.
  pub compose-IsKept :
      (es : List ComposerEvent) (s : Composer)
      → all_written es ≡ true
      → IsKept trim s
      → IsKept trim (compose trim es s)
  unfolding compose composer_step all_written
  compose-IsKept [] s w k = k
  compose-IsKept (e ∷ es) s w k =
      let next = (handle trim e s).0 in
      compose-IsKept es (resync trim s next).0 (ground arith) (
        IsAlike-IsKept trim next (resync trim s next).0 (resync-IsAlike trim s next)
          (handle-IsKept e s (ground arith) k))

  saved_lem :
      (o : Option Text) (s : Composer)
      → s.save_pending ≡ o
      → IsKept trim s
      → (save_draft trim true o s).draft ≡ kept trim s.content
  unfolding save_draft write_draft
  saved_lem none s p (k, l, e) = subst (λ o. Saves trim o s.content s.draft) p k
  saved_lem (some content) s p (k, l, e) =
      ap (kept trim) (subst (λ o. Saves trim o s.content s.draft) p k)

  loaded_lem :
      (draft : Option Text) (connected : Bool)
      → (load_draft trim true (fresh_composer draft connected)).content ≡ get_or draft []
  unfolding load_draft fresh_composer schedule_save
  loaded_lem draft connected =
      let (c, _, _, _, _, _, _, _) =
        set_content-fields trim (get_or draft [])
          (schedule_save trim (record (fresh_composer draft connected) { draft_loaded = true })) in
      c

  load_draft-IsKept :
      (readable : Bool) (draft : Option Text) (connected : Bool)
      → IsKept trim (load_draft trim readable (fresh_composer draft connected))
  unfolding load_draft fresh_composer schedule_save
  load_draft-IsKept readable draft connected =
      set_content-IsKept trim (if readable then get_or draft [] else [])
        (schedule_save trim (record (fresh_composer draft connected) { draft_loaded = true }))
        (refl, refl, tt)

  -- From the mounting of the component on, whatever is typed, pressed, sent, edited or cancelled, as
  -- long as the component stays and localStorage can be written: when the timer has saved, a page that is loaded anew starts
  -- with the text as it stood, or with an empty one if that was blank. It is assumed that the empty
  -- text trims to itself.
  pub compose-load_draft :
      (es : List ComposerEvent) (readable : Bool) (draft : Option Text) (connected again : Bool)
      → all_written es ≡ true
      → let t = compose trim es (load_draft trim readable (fresh_composer draft connected)) in
        let d = (on_save_timer trim true t).draft in
        (load_draft trim true (fresh_composer d again)).content
        ≡ (if has_content trim t.content then t.content else [])
  unfolding on_save_timer
  compose-load_draft es readable draft connected again w =
      let s = load_draft trim readable (fresh_composer draft connected) in
      let t = compose trim es s in
      let k = compose-IsKept es s w (load_draft-IsKept readable draft connected) in
      loaded_lem (save_draft trim true t.save_pending t).draft again
      ∙ ap (λ d. get_or d []) (saved_lem t.save_pending t refl k)
      ∙ or_blank t.content
