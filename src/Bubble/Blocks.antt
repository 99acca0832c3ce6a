-- ===== src/Bubble/Blocks.antt =====
-- A block of code in a message is found.
use mathlib.Core.Option
use token_dance_chat.Base.{
  ℕ, suc, ◌≡◌, refl, ap, sym, true, false, [], ◌∷◌, ◌++◌, none, some, Text, lit, eqb, arith, All,
}
use token_dance_chat.Bubble.CodeBlocks.{
  is_word, fence, strip, span_word, close_at, find_close, with_close, with_body, with_language,
  match_at, first_match, exec, code_part, add_text, add_match, continue, parts,
}
use token_dance_chat.Bubble.Parts.{block, regroup}

-- No backtick.
abbrev pub NoTick : Text → Type 0
NoTick = All (λ c. eqb c b'`' ≡ false)

abbrev pub Word : Text → Type 0
Word = All (λ c. is_word c ≡ true)

pub strip-append : (p s : Text) → strip p (p ++ s) ≡ some s
unfolding strip
strip-append [] s = refl
strip-append (a ∷ p) s = ground (arith, strip-append p s)

pub no_fence : (c : ℕ) (s : Text) → eqb c b'`' ≡ false → strip fence (c ∷ s) ≡ none
unfolding strip
no_fence c s h = ground (arith, h)

pub span_word-append : (w s : Text) → Word w → span_word (w ++ (b'\n' ∷ s)) ≡ (w, b'\n' ∷ s)
unfolding span_word
span_word-append [] s h = refl
span_word-append (c ∷ w) s (p, h) = rw (p, span_word-append w s h) refl

find_close-append : (c r : Text) → NoTick c → find_close (c ++ (fence ++ r)) ≡ some (c, r)
unfolding find_close close_at
find_close-append [] r h =
    ap (λ o. close_at o b'`' (find_close (b'`' ∷ b'`' ∷ r))) (strip-append fence r)
find_close-append (x ∷ c) r (n, h) =
    rw (no_fence x (c ++ (fence ++ r)) n, find_close-append c r h) refl

match_at-block :
    (language c rest : Text)
    → Word language
    → NoTick c
    → match_at (block language c ++ rest)
      ≡ some (record { before = []; language = language; code = c; rest = rest })
unfolding match_at with_language with_body with_close
match_at-block language c rest w n =
    let body = c ++ (fence ++ rest) in
    let opened : block language c ++ rest ≡ fence ++ (language ++ (b'\n' ∷ body)) =
      ap (λ x. fence ++ x) (sym (regroup language c rest)) in
    rw
      (
        opened,
        strip-append fence (language ++ (b'\n' ∷ body)),
        span_word-append language body w,
        strip-append (lit "\n") body,
        find_close-append c rest n,
      )
      refl

exec-block :
    (before language c rest : Text)
    → NoTick before
    → Word language
    → NoTick c
    → exec (before ++ (block language c ++ rest))
      ≡ some (record { before = before; language = language; code = c; rest = rest })
unfolding exec first_match match_at with_language
exec-block [] language c rest b w n =
    let inner = language ++ (b'\n' ∷ (c ++ fence)) in
    ap (λ o. first_match o b'`' (exec ((b'`' ∷ b'`' ∷ inner) ++ rest)))
      (match_at-block language c rest w n)
exec-block (x ∷ before) language c rest (p, b) w n =
    rw
      (no_fence x (before ++ (block language c ++ rest)) p, exec-block before language c rest b w n)
      refl

-- The first block of a message becomes a part of its own, with its language and with its code, the
-- end of which is trimmed, behind a part for the text before it where there is one, and the parts of
-- what follows come next: the text before the block and its code have no backtick, and the language
-- is made of letters, digits and underscores.
pub parts-block :
    (trim_end : Text → Text) (f : ℕ) (before language c rest : Text)
    → NoTick before
    → Word language
    → NoTick c
    → parts trim_end (suc f) (before ++ (block language c ++ rest))
      ≡ Option.map
          (λ ps. add_text before (code_part language (trim_end c) ∷ ps))
          (parts trim_end f rest)
unfolding parts continue add_match
parts-block trim_end f before language c rest b w n =
    ap (continue trim_end (parts trim_end f) (before ++ (block language c ++ rest)))
      (exec-block before language c rest b w n)
