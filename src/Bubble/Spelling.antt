-- ===== src/Bubble/Spelling.antt =====
-- The mentions and the texts between them are the whole text.
use mathlib.Core.Option
use mathlib.Core.List.{append-nil}
use token_dance_chat.Base.{
  Bool, ℕ, zero, suc, ◌<◌, ◌≡◌, refl, ap, ◌∙◌, sym, List, [], ◌∷◌, ◌++◌, Option, none, some, Text,
  length, length-append, arith,
}
use token_dance_chat.Bubble.Segments.{
  Segment, mention, MentionMatch, add_text_segment, add_mention, continue_segments, exec_mention,
  segments, render_segment, spelled, Stands, exec_mention_lem,
}

module _ (is_letter : ℕ → Bool) where
  add_text_segment-spelled :
      (t : Text) (ss : List Segment)
      → spelled is_letter (add_text_segment t ss) ≡ t ++ spelled is_letter ss
  unfolding add_text_segment
  add_text_segment-spelled [] ss = refl
  add_text_segment-spelled (c ∷ t) ss = refl

  Result : ℕ → Text → Type 0
  Result f s = (ss : List Segment) × (segments is_letter f s ≡ some ss) × (spelled is_letter ss ≡ s)

  shorter : (s : Text) (m : MentionMatch) → Stands is_letter s m → length m.rest < length s
  shorter s m h = omega (
    arith,
    ap length h,
    length-append m.before (b'@' ∷ (m.username ++ m.rest)),
    length-append m.username m.rest,
  )

  step_lem :
      (f : ℕ) (s : Text) (o : Option MentionMatch)
      → exec_mention is_letter s ≡ o
      → length s < suc f
      → ((r : Text) → length r < f → Result f r)
      → (ss : List Segment) × (continue_segments (segments is_letter f) s o ≡ some ss)
        × (spelled is_letter ss ≡ s)
  unfolding continue_segments add_mention Result
  step_lem f s none e h rec =
      (add_text_segment s [], refl, add_text_segment-spelled s [] ∙ append-nil s)
  step_lem f s (some m) e h rec =
      let found = exec_mention_lem is_letter s m e in
      let less = shorter s m found in
      let (ss, is, spells) = rec m.rest (omega (arith, less)) in
      (
        add_mention m ss,
        ap (Option.map (add_mention m)) is,
        add_text_segment-spelled m.before (mention m.username ∷ ss)
            ∙ ap (λ r. m.before ++ (b'@' ∷ (m.username ++ r))) spells
            ∙ sym found,
      )

  segments_lem : (f : ℕ) (s : Text) → length s < f → Result f s
  unfolding segments Result
  segments_lem zero s h = elim h [ ]
  segments_lem (suc f) s h = step_lem f s (exec_mention is_letter s) refl h (segments_lem f)

  -- The loop over the mentions ends for every text, with as many rounds as the text is long and one
  -- more, and its segments spell the text: nothing of it is lost or repeated.
  pub render_segment_total :
      (content : Text)
      → (ss : List Segment) × (render_segment is_letter content ≡ some ss)
        × (spelled is_letter ss ≡ content)
  unfolding render_segment Result
  render_segment_total content = segments_lem (suc (length content)) content (omega arith)
