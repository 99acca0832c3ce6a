-- ===== src/Bubble/Parts.antt =====
-- The parts of a message are the whole message.
use mathlib.Core.Option
use mathlib.Core.List.{append_assoc, append-nil}
use token_dance_chat.Base.{
  ℕ, zero, suc, ◌<◌, ◌≡◌, refl, ap, ◌∙◌, sym, subst, List, [], ◌∷◌, ◌++◌, Option, none, some, Text,
  lit, length, length-append, arith,
}
use token_dance_chat.Bubble.CodeBlocks.{
  fence, strip, span_word, close_at, find_close, Match, with_close, with_body, with_language,
  match_at, first_match, exec, Part, text_part, code_part, add_text, add_match, continue, parts,
  parse_content_for_code_blocks,
}

strip_lem : (p s r : Text) → strip p s ≡ some r → s ≡ p ++ r
unfolding strip
strip_lem [] s r e = cc
strip_lem (a ∷ p) [] r e = cc
strip_lem (a ∷ p) (b ∷ s) r e = ground (arith, strip_lem p s r)

span_word_lem : (s : Text) → (span_word s).0 ++ (span_word s).1 ≡ s
unfolding span_word
span_word_lem [] = refl
span_word_lem (c ∷ s) = ground (arith, span_word_lem s)

close_at_lem :
    (o : Option Text) (c : ℕ) (s : Text) (later : Option (Text × Text)) (body rest : Text)
    → strip fence (c ∷ s) ≡ o
    → ((b r : Text) → later ≡ some (b, r) → s ≡ b ++ (fence ++ r))
    → close_at o c later ≡ some (body, rest)
    → c ∷ s ≡ body ++ (fence ++ rest)
unfolding close_at
close_at_lem (some r) c s later body rest e h k =
    let e1 : body ≡ [] = cc in let e2 : rest ≡ r = cc in rw (e1, e2) (strip_lem fence (c ∷ s) r e)
close_at_lem none c s none body rest e h k = cc
close_at_lem none c s (some (b, r)) body rest e h k =
    let e1 : body ≡ c ∷ b = cc in let e2 : rest ≡ r = cc in rw (e1, e2) (ap (◌∷◌ c) (h b r refl))

find_close_lem :
    (s body rest : Text) → find_close s ≡ some (body, rest) → s ≡ body ++ (fence ++ rest)
unfolding find_close
find_close_lem [] body rest e = cc
find_close_lem (c ∷ s) body rest e =
    close_at_lem (strip fence (c ∷ s)) c s (find_close s) body rest refl (find_close_lem s) e

-- The text of a block.
abbrev pub block : Text → Text → Text
block language body = fence ++ (language ++ (b'\n' ∷ (body ++ fence)))

-- A match is a block where it says.
abbrev Matches : Text → Match → Type 0
Matches s m = s ≡ m.before ++ (block m.language m.code ++ m.rest)

pub regroup :
    (language c r : Text)
    → language ++ (b'\n' ∷ (c ++ (fence ++ r))) ≡ (language ++ (b'\n' ∷ (c ++ fence))) ++ r
regroup language c r = sym (
    append_assoc language (b'\n' ∷ (c ++ fence)) r
    ∙ ap (λ x. language ++ (b'\n' ∷ x)) (append_assoc c fence r))

with_close_lem :
    (language body : Text) (o : Option (Text × Text)) (m : Match)
    → find_close body ≡ o
    → with_close language o ≡ some m
    → Matches (fence ++ (language ++ (b'\n' ∷ body))) m
unfolding with_close
with_close_lem language body none m e h = cc
with_close_lem language body (some (c, r)) m e h =
    let is : record { before = []; language = language; code = c; rest = r } ≡ m = cc in
    subst (Matches (fence ++ (language ++ (b'\n' ∷ body)))) is (
      ap (λ x. fence ++ (language ++ (b'\n' ∷ x))) (find_close_lem body c r e)
      ∙ ap (λ x. fence ++ x) (regroup language c r))

with_body_lem :
    (language s : Text) (o : Option Text) (m : Match)
    → strip (lit "\n") s ≡ o
    → with_body language o ≡ some m
    → Matches (fence ++ (language ++ s)) m
unfolding with_body
with_body_lem language s none m e h = cc
with_body_lem language s (some body) m e h =
    let found = with_close_lem language body (find_close body) m refl h in
    ap (λ x. fence ++ (language ++ x)) (strip_lem (lit "\n") s body e) ∙ found

with_language_lem :
    (s : Text) (o : Option Text) (m : Match)
    → strip fence s ≡ o
    → with_language o ≡ some m
    → Matches s m
unfolding with_language
with_language_lem s none m e h = cc
with_language_lem s (some t) m e h =
    let word = (span_word t).0 in
    let after = (span_word t).1 in
    strip_lem fence s t e
    ∙ ap (λ x. fence ++ x) (sym (span_word_lem t))
    ∙ with_body_lem word after (strip (lit "\n") after) m refl h

first_match_lem :
    (o : Option Match) (c : ℕ) (s : Text) (later : Option Match) (m : Match)
    → match_at (c ∷ s) ≡ o
    → ((n : Match) → later ≡ some n → Matches s n)
    → first_match o c later ≡ some m
    → Matches (c ∷ s) m
unfolding first_match match_at
first_match_lem (some n) c s later m e h k =
    let is : n ≡ m = cc in with_language_lem (c ∷ s) (strip fence (c ∷ s)) m refl (e ∙ ap some is)
first_match_lem none c s none m e h k = cc
first_match_lem none c s (some n) m e h k =
    let is : record n { before = c ∷ n.before } ≡ m = cc in
    subst (Matches (c ∷ s)) is (ap (◌∷◌ c) (h n refl))

exec_lem : (s : Text) (m : Match) → exec s ≡ some m → Matches s m
unfolding exec
exec_lem [] m e = cc
exec_lem (c ∷ s) m e = first_match_lem (match_at (c ∷ s)) c s (exec s) m refl (exec_lem s) e

module _ (trim_end : Text → Text) where
  -- The parts are the text, cut into pieces: what lies between the blocks, and the blocks, the end
  -- of whose code is trimmed.
  abbrev pub Cut : List Part → Text → Type 0
  Cut [] s = s ≡ []
  Cut (text_part t ∷ ps) s = (rest : Text) × (s ≡ t ++ rest) × Cut ps rest
  Cut (code_part language c ∷ ps) s =
      (body : Text) × (rest : Text) × (s ≡ block language body ++ rest)
      × (c ≡ trim_end body)
      × Cut ps rest

  add_text-Cut : (t : Text) (ps : List Part) (s : Text) → Cut ps s → Cut (add_text t ps) (t ++ s)
  unfolding add_text
  add_text-Cut [] ps s h = h
  add_text-Cut (c ∷ t) ps s h = (s, refl, h)

  Result : ℕ → Text → Type 0
  Result f s = (ps : List Part) × (parts trim_end f s ≡ some ps) × Cut ps s

  shorter : (s : Text) (m : Match) → Matches s m → length m.rest < length s
  shorter s m h =
      let all = ap length h in
      let body = block m.language m.code in
      omega (arith, all, length-append m.before (body ++ m.rest), length-append body m.rest)

  step_lem :
      (f : ℕ) (s : Text) (o : Option Match)
      → exec s ≡ o
      → length s < suc f
      → ((r : Text) → length r < f → Result f r)
      → (ps : List Part) × (continue trim_end (parts trim_end f) s o ≡ some ps) × Cut ps s
  unfolding continue add_match Result
  step_lem f s none e h rec =
      (add_text s [], refl, subst (Cut (add_text s [])) (append-nil s) (add_text-Cut s [] [] refl))
  step_lem f s (some m) e h rec =
      let found = exec_lem s m e in
      let less = shorter s m found in
      let (ps, is, cut) = rec m.rest (omega (arith, less)) in
      let tail : Cut (code_part m.language (trim_end m.code) ∷ ps)
          (block m.language m.code ++ m.rest) =
        (m.code, m.rest, refl, refl, cut) in
      let whole = code_part m.language (trim_end m.code) ∷ ps in
      (
        add_text m.before whole,
        ap (Option.map (add_match trim_end m)) is,
        subst (Cut (add_text m.before whole)) (sym found)
            (add_text-Cut m.before whole (block m.language m.code ++ m.rest) tail),
      )

  parts_lem : (f : ℕ) (s : Text) → length s < f → Result f s
  unfolding parts Result
  parts_lem zero s h = elim h [ ]
  parts_lem (suc f) s h = step_lem f s (exec s) refl h (parts_lem f)

  -- The loop over the matches ends for every text, with as many rounds as the text is long and one
  -- more, and loses nothing: the parts are the pieces of the text, in their order, with the fences
  -- and languages of the blocks.
  pub parse_content_for_code_blocks_total :
      (content : Text)
      → (ps : List Part) × (parse_content_for_code_blocks trim_end content ≡ some ps)
        × Cut ps content
  unfolding parse_content_for_code_blocks Result
  parse_content_for_code_blocks_total content =
      parts_lem (suc (length content)) content (omega arith)
