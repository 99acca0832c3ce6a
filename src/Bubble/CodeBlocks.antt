-- ===== src/Bubble/CodeBlocks.antt =====
-- `parseContentForCodeBlocks`: the pattern /```(\w*)\n([\s\S]*?)```/g and the loop over its matches.
-- `String.trimEnd` is an argument.
use mathlib.Core.Option
use token_dance_chat.Base.{
  ℕ, zero, suc, Bool, ◌&&◌, ◌||◌, List, [], ◌∷◌, Option, none, some, Text, lit, eqb, leb, length,
  if◌then◌else◌,
}

-- `\w`
abbrev pub is_word : ℕ → Bool
is_word c =
    (leb b'a' c && leb c b'z')
    || (leb b'A' c && leb c b'Z')
    || (leb b'0' c && leb c b'9')
    || eqb c b'_'

abbrev pub fence : Text
fence = lit "```"

-- The rest of a text behind a prefix.
unfoldable pub strip : Text → Text → Option Text
strip [] s = some s
strip (a ∷ p) [] = none
strip (a ∷ p) (b ∷ s) = let rest = strip p s in if eqb a b then rest else none

-- The longest run of word characters. It need not be shortened for a match, since the line break
-- that has to follow is no such character.
unfoldable pub span_word : Text → Text × Text
span_word [] = ([], [])
span_word (c ∷ s) =
    let rest = span_word s in if is_word c then (c ∷ rest.0, rest.1) else ([], c ∷ s)

unfoldable pub close_at : Option Text → ℕ → Option (Text × Text) → Option (Text × Text)
close_at (some rest) c later = some ([], rest)
close_at none c none = none
close_at none c (some (code, rest)) = some (c ∷ code, rest)

-- The text up to the first fence, and behind it.
unfoldable pub find_close : Text → Option (Text × Text)
find_close [] = none
find_close (c ∷ s) = close_at (strip fence (c ∷ s)) c (find_close s)

-- A match, with the text before it and behind it.
pub record Match : Type 0 where
  pub before : Text
  pub language : Text
  pub code : Text
  pub rest : Text

unfoldable pub with_close : Text → Option (Text × Text) → Option Match
with_close language none = none
with_close language (some (code, rest)) =
    some (record { before = []; language = language; code = code; rest = rest })

unfoldable pub with_body : Text → Option Text → Option Match
with_body language none = none
with_body language (some body) = with_close language (find_close body)

unfoldable pub with_language : Option Text → Option Match
with_language none = none
with_language (some s) = with_body (span_word s).0 (strip (lit "\n") (span_word s).1)

-- The match that begins here.
unfoldable pub match_at : Text → Option Match
match_at s = with_language (strip fence s)

unfoldable pub first_match : Option Match → ℕ → Option Match → Option Match
first_match (some m) c later = some m
first_match none c none = none
first_match none c (some m) = some (record m { before = c ∷ m.before })

-- `codeBlockRegex.exec`, from `lastIndex` on.
unfoldable pub exec : Text → Option Match
exec [] = none
exec (c ∷ s) = first_match (match_at (c ∷ s)) c (exec s)

pub data Part : Type 0 where
  text_part : Text → Part
  code_part : Text → Text → Part

-- A text is a part unless it is empty.
unfoldable pub add_text : Text → List Part → List Part
add_text [] parts = parts
add_text (c ∷ s) parts = text_part (c ∷ s) ∷ parts

module _ (trim_end : Text → Text) where
  unfoldable pub add_match : Match → List Part → List Part
  add_match m parts = add_text m.before (code_part m.language (trim_end m.code) ∷ parts)

  unfoldable pub continue : (Text → Option (List Part)) → Text → Option Match → Option (List Part)
  continue next s none = some (add_text s [])
  continue next s (some m) = Option.map (add_match m) (next m.rest)

  -- The loop, with fuel; `none` means that the fuel ran out.
  unfoldable pub parts : ℕ → Text → Option (List Part)
  parts zero s = none
  parts (suc f) s = continue (parts f) s (exec s)

  -- One round for each match, and one for the end.
  unfoldable pub parse_content_for_code_blocks : Text → Option (List Part)
  parse_content_for_code_blocks content = parts (suc (length content)) content
