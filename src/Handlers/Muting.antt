-- ===== src/Handlers/Muting.antt =====
-- Muting one conversation.
use token_dance_chat.Base.{
  ℕ, ◌≡◌, ap, ◌∙◌, [], Bool, true, false, Option, some, Text, ◌==◌, ==_refl, lookup, insert,
  lookup-insert, arith, ltb, if◌then◌else◌,
}
use mathlib.Core.Option.{get_or}
use token_dance_chat.Store.{ChatState, NotificationPref}
use token_dance_chat.Store.Lists.{includes-add_name, includes-remove_name}
use token_dance_chat.Store.Conversations.{
  update_notification_pref, add_muted_conversation, remove_muted_conversation,
}
use token_dance_chat.Handlers.Frames.{pref_mutes, is_conversation_muted, on_notification_pref}

pref_mutes-insert :
    (key : Text) (pref : NotificationPref) (now : ℕ) (s : ChatState)
    → pref_mutes (lookup key (insert key pref s.notification_prefs)) now ≡ ltb now pref.muted_until
unfolding pref_mutes
pref_mutes-insert key pref now s =
    ap (λ o. pref_mutes o now) (lookup-insert key key pref s.notification_prefs)
    ∙ ap (λ b. pref_mutes (if b then some pref else lookup key s.notification_prefs) now)
        (==_refl key)

-- The preference for a conversation, under a key that is not empty, decides alone whether the
-- conversation is muted from then on at that time: exactly while the time given lies ahead,
-- whatever the older list of muted conversations said.
pub on_notification_pref-mutes :
    (key : Text) (muted_until : ℕ) (show_preview : Option Bool) (now : ℕ) (s : ChatState)
    → (key == []) ≡ false
    → is_conversation_muted key now (on_notification_pref key (some muted_until) show_preview now s)
      ≡ ltb now muted_until
unfolding on_notification_pref is_conversation_muted update_notification_pref add_muted_conversation
    remove_muted_conversation
on_notification_pref-mutes key muted_until show_preview now s h =
    let pref : NotificationPref = record {
      muted_until = muted_until;
      show_preview = get_or show_preview true;
    } in
    let by_pref = pref_mutes-insert key pref now s in
    let added = includes-add_name key key s.muted_conversations in
    let removed = includes-remove_name key key s.muted_conversations in
    let same = ==_refl key in ground (arith, h, by_pref, added, removed, same)
