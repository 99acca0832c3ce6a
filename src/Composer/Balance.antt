-- ===== src/Composer/Balance.antt =====
-- What each handler sends and asks, against the flags that it sets.
use token_dance_chat.Base.{
  ℕ, ◌+◌, ◌≡◌, refl, Bool, true, false, List, [], ◌∷◌, ◌++◌, Option, none, some, Text, arith,
}
use token_dance_chat.Composer.{
  Composer, Effect, starts_typing, stops_typing, clears_reply, shows_auth, sends_text, edits_text,
}
use token_dance_chat.Composer.Content.{
  schedule_save, pulse_on_content, set_content, stop_typing, sync_typing, resync,
}
use token_dance_chat.Composer.Send.{submission}

abbrev pub one_if : Bool → ℕ
one_if true = 1
one_if false = 0

-- The effects of one kind.
unfoldable pub starts : List Effect → ℕ
starts [] = 0
starts (starts_typing ∷ es) = 1 + starts es
starts (_ ∷ es) = starts es

unfoldable pub stops : List Effect → ℕ
stops [] = 0
stops (stops_typing ∷ es) = 1 + stops es
stops (_ ∷ es) = stops es

-- Messages and edits alike.
unfoldable pub sends : List Effect → ℕ
sends [] = 0
sends (sends_text _ ∷ es) = 1 + sends es
sends (edits_text _ _ ∷ es) = 1 + sends es
sends (_ ∷ es) = sends es

pub starts-append : (xs ys : List Effect) → starts (xs ++ ys) ≡ starts xs + starts ys
unfolding starts
starts-append [] ys = omega arith
starts-append (starts_typing ∷ es) ys = omega (arith, starts-append es ys)
starts-append (stops_typing ∷ es) ys = starts-append es ys
starts-append (clears_reply ∷ es) ys = starts-append es ys
starts-append (shows_auth ∷ es) ys = starts-append es ys
starts-append (sends_text a ∷ es) ys = starts-append es ys
starts-append (edits_text a b ∷ es) ys = starts-append es ys

pub stops-append : (xs ys : List Effect) → stops (xs ++ ys) ≡ stops xs + stops ys
unfolding stops
stops-append [] ys = omega arith
stops-append (stops_typing ∷ es) ys = omega (arith, stops-append es ys)
stops-append (starts_typing ∷ es) ys = stops-append es ys
stops-append (clears_reply ∷ es) ys = stops-append es ys
stops-append (shows_auth ∷ es) ys = stops-append es ys
stops-append (sends_text a ∷ es) ys = stops-append es ys
stops-append (edits_text a b ∷ es) ys = stops-append es ys

pub sends-append : (xs ys : List Effect) → sends (xs ++ ys) ≡ sends xs + sends ys
unfolding sends
sends-append [] ys = omega arith
sends-append (starts_typing ∷ es) ys = sends-append es ys
sends-append (stops_typing ∷ es) ys = sends-append es ys
sends-append (clears_reply ∷ es) ys = sends-append es ys
sends-append (shows_auth ∷ es) ys = sends-append es ys
sends-append (sends_text a ∷ es) ys = omega (arith, sends-append es ys)
sends-append (edits_text a b ∷ es) ys = omega (arith, sends-append es ys)

-- No typing starts, each stop takes the flag down, and each sending takes the other one up.
abbrev pub IsBalanced : Composer → Composer × List Effect → Type 0
IsBalanced s r =
    (starts r.1 ≡ 0)
    × (stops r.1 + one_if r.0.typing_sent ≡ one_if s.typing_sent)
    × (sends r.1 + one_if s.sending ≡ one_if r.0.sending)

module _ (trim : Text → Text) where
  -- What `setContent` leaves alone.
  pub set_content-fields :
      (content : Text) (s : Composer)
      → let t = set_content trim content s in
        (t.content ≡ content)
        × (t.typing_sent ≡ s.typing_sent)
        × (t.sending ≡ s.sending)
        × (t.connected ≡ s.connected)
        × (t.draft ≡ s.draft)
        × (t.draft_loaded ≡ s.draft_loaded)
        × (t.edit_stash ≡ s.edit_stash)
        × (t.editing_message_id ≡ s.editing_message_id)
  unfolding set_content schedule_save pulse_on_content
  set_content-fields content s = ground arith

  pub submission-sends :
      (id : Option Text) (trimmed : Text)
      → (starts (submission id trimmed ∷ clears_reply ∷ []) ≡ 0)
        × (stops (submission id trimmed ∷ clears_reply ∷ []) ≡ 0)
        × (sends (submission id trimmed ∷ clears_reply ∷ []) ≡ 1)
  unfolding submission starts stops sends
  submission-sends none trimmed = (refl, refl, refl)
  submission-sends (some id) trimmed = ground arith

  pub stop_typing-IsBalanced : (s : Composer) → IsBalanced s (stop_typing trim s)
  unfolding stop_typing starts stops sends
  stop_typing-IsBalanced s = ground arith

  sync_typing_balance :
      (s : Composer)
      → let r = sync_typing trim s in
        (one_if s.typing_sent + starts r.1 ≡ stops r.1 + one_if r.0.typing_sent)
        × (sends r.1 ≡ 0)
        × (r.0.sending ≡ s.sending)
  unfolding sync_typing starts stops sends
  sync_typing_balance s = ground arith

  pub resync_balance :
      (old s : Composer)
      → let r = resync trim old s in
        (one_if s.typing_sent + starts r.1 ≡ stops r.1 + one_if r.0.typing_sent)
        × (sends r.1 ≡ 0)
        × (r.0.sending ≡ s.sending)
  unfolding resync starts stops sends
  resync_balance old s = ground (arith, sync_typing_balance s)
