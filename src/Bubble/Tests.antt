-- ===== src/Bubble/Tests.antt =====
-- The theorems on the blocks of code and the mentions at a concrete message.
use mathlib.Core.Option
use token_dance_chat.Base.{◌≡◌, refl, List, ◌∷◌, ◌++◌, some, Text, lit}
use token_dance_chat.Bubble.CodeBlocks.{
  Part, code_part, add_text, parts, parse_content_for_code_blocks,
}
use token_dance_chat.Bubble.Parts.{block, Cut, parse_content_for_code_blocks_total}
use token_dance_chat.Bubble.Blocks.{parts-block}
use token_dance_chat.Bubble.Torn.{opening}

abbrev untrimmed : Text → Text
untrimmed t = t

abbrev answer : Text
answer = lit "try " ++ (block (lit "ts") (lit "f()") ++ lit " now")

parse_content_for_code_blocks_total_example :
    (ps : List Part) × (parse_content_for_code_blocks untrimmed answer ≡ some ps)
    × Cut untrimmed ps answer
parse_content_for_code_blocks_total_example = parse_content_for_code_blocks_total untrimmed answer

parts-block_example :
    parts untrimmed 2 answer
    ≡ Option.map
        (λ ps. add_text (lit "try ") (code_part (lit "ts") (lit "f()") ∷ ps))
        (parts untrimmed 1 (lit " now"))
parts-block_example =
    parts-block untrimmed 1 (lit "try ") (lit "ts") (lit "f()") (lit " now")
      (refl, (refl, (refl, (refl, tt)))) (refl, (refl, tt)) (refl, (refl, (refl, tt)))

abbrev decorated : Text
decorated = opening (lit "ts") (lit "f ") ++ lit "@di x\n```"
