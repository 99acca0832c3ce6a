-- ===== src/Composer/Mention.antt =====
-- The mention that is being written, and its completion.
use token_dance_chat.Base.{
  ℕ, suc, Bool, true, ◌&&◌, [], ◌∷◌, Option, none, some, Text, take, eqb, if◌then◌else◌,
}
use token_dance_chat.Composer.{Composer}

module _ (is_word : ℕ → Bool) where
  unfoldable pub all_words : Text → Bool
  all_words [] = true
  all_words (c ∷ s) = is_word c && all_words s

  unfoldable pub shift_match : Option (ℕ × Text) → Option (ℕ × Text)
  shift_match none = none
  shift_match (some (i, query)) = some (suc i, query)

  -- The first match of `/@([\p{L}\p{N}_]*)$/u`: where it begins, and the group.
  unfoldable pub match_mention : Text → Option (ℕ × Text)
  match_mention [] = none
  match_mention (c ∷ s) =
      if eqb c b'@' && all_words s then some (0, s) else shift_match (match_mention s)

  -- The match in the text before the cursor.
  unfoldable pub mention_query : ℕ → Text → Option (ℕ × Text)
  mention_query cursor content = match_mention (take cursor content)
