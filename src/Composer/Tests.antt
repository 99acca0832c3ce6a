-- ===== src/Composer/Tests.antt =====
-- The theorems on the composer at concrete runs.
use token_dance_chat.Base.{
  ℕ, ◌+◌, ◌≤◌, ◌≡◌, refl, Bool, true, false, not, ◌&&◌, List, [], ◌∷◌, ◌++◌, none, some, Text,
  text_dec, lit, length, eqb, All, Among, ◌⊎◌, if◌then◌else◌,
}
use token_dance_chat.Composer.{Composer, fresh_composer}
use token_dance_chat.Composer.Content.{
  schedule_save, set_content, pulse_on_content, resync, sync_typing, has_content, load_draft,
  on_save_timer,
}
use token_dance_chat.Composer.Steps.{
  ComposerEvent, types, clicks_send, connects, saves, releases, unmounts, handle, composer_step,
  effects, compose,
}
use token_dance_chat.Composer.Balance.{one_if, starts, stops, sends}
use token_dance_chat.Composer.Typing.{effects-unmounts, effects-told}
use token_dance_chat.Composer.OneSend.{released, effects-released}
use token_dance_chat.Composer.Reload.{all_written, compose-load_draft}
use token_dance_chat.Composer.Suggest.{mention_filtered, Suggested, IsAssistant, IsUser}
use token_dance_chat.Composer.Complete.{mention_filtered-Among}

-- Texts without blanks at their ends, in lower case.
abbrev same_text : Text → Text
same_text t = t

-- Typed, sent, typed again while the connection goes.
abbrev session : List ComposerEvent
session =
    types (lit "hi")
    ∷ clicks_send (lit "hi") (lit "alice")
    ∷ clicks_send (lit "hi") (lit "alice")
    ∷ releases
    ∷ types (lit "so")
    ∷ connects false
    ∷ saves true
    ∷ []

abbrev opened : Composer
opened = fresh_composer none true

effects-unmounts_example :
    starts (effects same_text (session ++ unmounts ∷ []) opened)
    ≡ stops (effects same_text (session ++ unmounts ∷ []) opened)
unfolding fresh_composer
effects-unmounts_example = effects-unmounts same_text session opened refl

effects-told_example :
    let t = compose same_text (types (lit "hi") ∷ []) opened in
    (has_content same_text t.content ≡ true) × (t.connected ≡ true)
unfolding fresh_composer effects composer_step handle set_content schedule_save pulse_on_content
    resync sync_typing text_dec
effects-told_example = effects-told same_text (types (lit "hi") ∷ []) opened refl refl

effects-released_example :
    sends (effects same_text session opened) + one_if opened.sending ≤ released session + 1
effects-released_example = effects-released same_text session opened

compose-load_draft_example :
    let t = compose same_text session (load_draft same_text true opened) in
    (load_draft same_text true (fresh_composer (on_save_timer same_text true t).draft true)).content
    ≡ (if has_content same_text t.content then t.content else [])
unfolding all_written
compose-load_draft_example = compose-load_draft same_text refl session true none true true refl

abbrev is_letter : ℕ → Bool
is_letter c = not (eqb c 64) && not (eqb c 32)

-- A mention that is being written.
abbrev mentioning : Composer
mentioning = record opened { content = lit "hi @bo!"; mention_active = true }

mention_filtered-Among_example :
    let names = mention_filtered same_text (some (lit "bo")) (lit "bob" ∷ lit "eve" ∷ []) in
    (length names ≤ 10)
    × All (Suggested same_text (lit "bo") (lit "bob" ∷ lit "eve" ∷ [])) names
    × ((name : Text)
        → IsAssistant same_text (lit "bo") name
          ⊎ IsUser same_text (lit "bo") (lit "bob" ∷ lit "eve" ∷ []) name
        → Among name names ⊎ (length names ≡ 10))
mention_filtered-Among_example =
    mention_filtered-Among same_text (lit "bo") (lit "bob" ∷ lit "eve" ∷ [])
