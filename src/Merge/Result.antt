-- ===== src/Merge/Result.antt =====
-- What follows the loop of a merge, with its two branches made one.
use mathlib.Core.List.{append-nil}
use token_dance_chat.Base.{
  ℕ, ◌+◌, ◌≤◌, ◌≡◌, refl, sym, ap, ◌∙◌, none, true, List, [], ◌∷◌, arith, length, eqb, Bool-cases,
  inl, inr, if◌then◌else◌,
}
use token_dance_chat.Message.{ChatMessage}
use token_dance_chat.Merge.{
  MergeDirection, prepend, append, MergeLoop, MergeResult, merge_loop, start_loop, joined,
  cap_window, finish_merge, merge_message_window,
}
use token_dance_chat.Merge.Window.{Refreshed-length, merge_loop-Progress}

pub cap_window-fits :
    (direction : MergeDirection) (cap : ℕ) (whole : List ChatMessage)
    → length whole ≤ cap
    → cap_window direction cap whole ≡ (whole, none)
unfolding cap_window
cap_window-fits prepend cap whole h = ground arith
cap_window-fits append cap whole h = ground arith

joined-idle :
    (direction : MergeDirection) (l : MergeLoop)
    → l.new_messages ≡ []
    → joined direction l ≡ l.messages
joined-idle prepend l e = rw e
joined-idle append l e = rw e (append-nil l.messages)

cap_window-idle :
    (l : MergeLoop) (direction : MergeDirection) (cap : ℕ)
    → l.new_messages ≡ []
    → length l.messages ≤ cap
    → cap_window direction cap (joined direction l) ≡ (l.messages, none)
cap_window-idle l direction cap e h =
    ap (cap_window direction cap) (joined-idle direction l e)
    ∙ cap_window-fits direction cap l.messages h

empty_of_length : (xs : List ChatMessage) → eqb (length xs) 0 ≡ true → xs ≡ []
empty_of_length [] h = refl
empty_of_length (x ∷ xs) h = absurd (ground arith)

-- The result by the loop's final state.
pub record EndsIn (l : MergeLoop) (direction : MergeDirection) (cap revision : ℕ) (r : MergeResult)
    : Type 0 where
  pub window : cap_window direction cap (joined direction l) ≡ (r.messages, r.dropped_side)
  pub count : r.added_count ≡ length l.new_messages
  pub revised : r.revision ≡ (if eqb (length l.new_messages) 0 then revision else revision + 1)

finish_merge-EndsIn :
    (l : MergeLoop) (n : ℕ) (direction : MergeDirection) (cap revision : ℕ)
    → length l.messages ≡ n
    → n ≤ cap
    → EndsIn l direction cap revision (finish_merge l n direction cap revision)
unfolding finish_merge
finish_merge-EndsIn l n direction cap revision e h =
    elim (Bool-cases (eqb (length l.new_messages) 0)) [
      | inl idle ↦
          let none_new = empty_of_length l.new_messages idle in
          let same : eqb (length l.messages) n ≡ true = ground arith in
          rw (idle, same)
            (record {
              window = cap_window-idle l direction cap none_new (omega arith);
              count = rw none_new;
              revised = rw idle;
            })
      | inr busy ↦ rw busy (record { window = refl; count = refl; revised = rw busy })
    ]

pub merge_message_window-EndsIn :
    (current incoming : List ChatMessage) (direction : MergeDirection) (cap revision : ℕ)
    → length current ≤ cap
    → EndsIn
        (merge_loop (start_loop current) incoming)
        direction
        cap
        revision
        (merge_message_window current incoming direction cap revision)
unfolding merge_message_window merge_loop
merge_message_window-EndsIn current [] direction cap revision h = record {
  window = cap_window-idle (start_loop current) direction cap refl h;
  count = refl;
  revised = refl;
}
merge_message_window-EndsIn current (m ∷ ms) direction cap revision h =
    let p = merge_loop-Progress (start_loop current) (m ∷ ms) in
    finish_merge-EndsIn _ (length current) direction cap revision
      (Refreshed-length (m ∷ ms) current _ p.refreshed) h

-- A loop that found nothing new leaves only its replacements.
pub EndsIn-idle :
    (l : MergeLoop) (direction : MergeDirection) (cap revision : ℕ) (r : MergeResult)
    → EndsIn l direction cap revision r
    → l.new_messages ≡ []
    → length l.messages ≤ cap
    → (r.messages ≡ l.messages) × (r.added_count ≡ 0) × (r.revision ≡ revision)
EndsIn-idle l direction cap revision r ends none_new fits = (
  ap (λ w. w.0) (sym ends.window ∙ cap_window-idle l direction cap none_new fits),
  ends.count ∙ ap length none_new,
  ends.revised ∙ ap (λ ms. if eqb (length ms) 0 then revision else revision + 1) none_new,
)
