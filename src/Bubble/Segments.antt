-- ===== src/Bubble/Segments.antt =====
-- `renderSegment`: the mentions in a text, found by /@([\p{L}\p{N}_]+)/gu, and the texts between
-- them, each of which is then searched for blocks of code. A text is here the list of its code
-- points, which is what the pattern's flag `u` reads; which of them are letters or digits, the `_`
-- included, is an argument.
use mathlib.Core.Option
use token_dance_chat.Base.{
  ℕ, zero, suc, ◌≡◌, refl, ap, sym, subst, Bool, List, [], ◌∷◌, ◌++◌, Option, none, some, Text, eqb,
  length, arith, if◌then◌else◌,
}

pub data Segment : Type 0 where
  text_segment : Text → Segment
  mention : Text → Segment

pub record MentionMatch : Type 0 where
  pub before : Text
  pub username : Text
  pub rest : Text

unfoldable pub add_text_segment : Text → List Segment → List Segment
add_text_segment [] ss = ss
add_text_segment (c ∷ s) ss = text_segment (c ∷ s) ∷ ss

unfoldable pub add_mention : MentionMatch → List Segment → List Segment
add_mention m ss = add_text_segment m.before (mention m.username ∷ ss)

unfoldable pub first_mention : Option MentionMatch → ℕ → Option MentionMatch → Option MentionMatch
first_mention (some m) c later = some m
first_mention none c none = none
first_mention none c (some m) = some (record m { before = c ∷ m.before })

-- At least one character of a name.
unfoldable pub name_match : Text × Text → Option MentionMatch
name_match ([], rest) = none
name_match (c ∷ name, rest) = some (record { before = []; username = c ∷ name; rest = rest })

unfoldable pub continue_segments :
    (Text → Option (List Segment)) → Text → Option MentionMatch → Option (List Segment)
continue_segments next s none = some (add_text_segment s [])
continue_segments next s (some m) = Option.map (add_mention m) (next m.rest)

module _ (is_letter : ℕ → Bool) where
  unfoldable pub span_name : Text → Text × Text
  span_name [] = ([], [])
  span_name (c ∷ s) =
      let more = span_name s in if is_letter c then (c ∷ more.0, more.1) else ([], c ∷ s)

  unfoldable pub exec_mention : Text → Option MentionMatch
  exec_mention [] = none
  exec_mention (c ∷ s) =
      first_mention (if eqb c b'@' then name_match (span_name s) else none) c (exec_mention s)

  -- The loop, with fuel; `none` means that the fuel ran out.
  unfoldable pub segments : ℕ → Text → Option (List Segment)
  segments zero s = none
  segments (suc f) s = continue_segments (segments f) s (exec_mention s)

  unfoldable pub render_segment : Text → Option (List Segment)
  render_segment content = segments (suc (length content)) content

  -- The text that the segments stand for.
  abbrev pub spelled : List Segment → Text
  spelled [] = []
  spelled (text_segment t ∷ ss) = t ++ spelled ss
  spelled (mention u ∷ ss) = b'@' ∷ (u ++ spelled ss)

  span_name_lem : (s : Text) → (span_name s).0 ++ (span_name s).1 ≡ s
  unfolding span_name
  span_name_lem [] = refl
  span_name_lem (c ∷ s) = ground (arith, span_name_lem s)

  abbrev pub Stands : Text → MentionMatch → Type 0
  Stands s m = s ≡ m.before ++ (b'@' ∷ (m.username ++ m.rest))

  name_match_lem :
      (p : Text × Text) (s : Text) (m : MentionMatch)
      → p.0 ++ p.1 ≡ s
      → name_match p ≡ some m
      → Stands (b'@' ∷ s) m
  unfolding name_match
  name_match_lem ([], rest) s m e h = cc
  name_match_lem (c ∷ name, rest) s m e h =
      let is : record { before = []; username = c ∷ name; rest = rest } ≡ m = cc in
      subst (Stands (b'@' ∷ s)) is (ap (◌∷◌ b'@') (sym e))

  first_mention_lem :
      (o later : Option MentionMatch) (c : ℕ) (s : Text) (m : MentionMatch)
      → ((n : MentionMatch) → o ≡ some n → Stands (c ∷ s) n)
      → ((n : MentionMatch) → later ≡ some n → Stands s n)
      → first_mention o c later ≡ some m
      → Stands (c ∷ s) m
  unfolding first_mention
  first_mention_lem (some n) later c s m now h k = now m (cc)
  first_mention_lem none none c s m now h k = cc
  first_mention_lem none (some n) c s m now h k =
      let is : record n { before = c ∷ n.before } ≡ m = cc in
      subst (Stands (c ∷ s)) is (ap (◌∷◌ c) (h n refl))

  here_lem :
      (c : ℕ) (s : Text) (n : MentionMatch)
      → (if eqb c b'@' then name_match (span_name s) else none) ≡ some n
      → Stands (c ∷ s) n
  here_lem c s n e =
      let found = name_match_lem (span_name s) s n (span_name_lem s) in ground (arith, found, e)

  pub exec_mention_lem : (s : Text) (m : MentionMatch) → exec_mention s ≡ some m → Stands s m
  unfolding exec_mention
  exec_mention_lem [] m e = cc
  exec_mention_lem (c ∷ s) m e =
      first_mention_lem (if eqb c b'@' then name_match (span_name s) else none) (exec_mention s) c s
        m (here_lem c s) (exec_mention_lem s) e
