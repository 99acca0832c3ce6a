-- ===== src/Bubble/Torn.antt =====
-- A block of code that has a mention in it.
use mathlib.Core.Option
use token_dance_chat.Base.{◌≡◌, false, ◌∷◌, ◌++◌, Text, eqb, All}
use token_dance_chat.Bubble.CodeBlocks.{fence}

-- The beginning of a block, up to somewhere in its code.
abbrev pub opening : Text → Text → Text
opening language body = fence ++ (language ++ (b'\n' ∷ body))

-- A text without a mention in front of an `@` and a letter.
abbrev pub NoAt : Text → Type 0
NoAt = All (λ c. eqb c b'@' ≡ false)
