-- ===== src/Assistants.antt =====
-- frontend/src/lib/assistantRegistry.ts: the one assistant, and the names of the models.
--
-- The texts that only label the assistant on the screen are not modelled.
use token_dance_chat.Base.{List, [], ◌∷◌, Text, Dict, lit, lookup}
use mathlib.Core.Option.{get_or}

pub record Assistant : Type 0 where
  pub name : Text
  pub aliases : List Text

abbrev pub mentionable_assistants : List Assistant
mentionable_assistants =
    record { name = lit "TokenBot"; aliases = lit "bot" ∷ lit "tokenbot" ∷ [] } ∷ []

abbrev pub model_display_names : Dict Text
model_display_names =
    (lit "deepseek-v4-flash", lit "DeepSeek V4 Flash")
    ∷ (lit "deepseek-v4-flash-vision-exp", lit "DeepSeek V4 Flash Vision")
    ∷ (lit "deepseek-v4-pro", lit "DeepSeek V4 Pro")
    ∷ (lit "glm-5.1", lit "GLM 5.1")
    ∷ (lit "glm-4-flash", lit "GLM 4 Flash")
    ∷ (lit "kimi-k2.6", lit "Kimi K2.6")
    ∷ (lit "minimax-m2.7", lit "MiniMax M2.7")
    ∷ (lit "qwen3.7-plus", lit "Qwen 3.7 Plus")
    ∷ []

-- A model without a name is shown by its id.
unfoldable pub model_display_name : Text → Text
model_display_name model_id = get_or (lookup model_id model_display_names) model_id
