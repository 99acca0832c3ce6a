-- ===== src/Merge/Novel.antt =====
-- The messages of a page that are new to a window.
use mathlib.Core.List.{append-nil, append_assoc}
use token_dance_chat.Base.{
  ◌≤◌, ◌≡◌, refl, sym, ◌∙◌, true, false, ◌||◌, List, [], ◌∷◌, ◌++◌, none, arith, Text, length,
  includes, if◌then◌else◌, Bool-cases, inl, inr, All, Apart, Distinct, Apart-head, Apart-tail,
  All-map, subst, ==_refl,
}
use token_dance_chat.Message.{ChatMessage}
use token_dance_chat.Merge.{MergeLoop, ids, echo_position, merge_loop}
use token_dance_chat.Merge.Window.{merge_one-known, merge_one-new, merge_loop-cons}

-- No incoming message replaces an entry.
abbrev pub NoEcho : List ChatMessage → List ChatMessage → Type 0
NoEcho current = All (λ m. echo_position current m ≡ none)

-- The messages whose id has not been seen, each id once.
pub novel : List Text → List ChatMessage → List ChatMessage
novel seen [] = []
novel seen (m ∷ ms) =
    let older = novel seen ms in
    let newer = novel (m.id ∷ seen) ms in if includes seen m.id then older else m ∷ newer

module _ (seen : List Text) (m : ChatMessage) (page : List ChatMessage) where
  novel-known : includes seen m.id ≡ true → novel seen (m ∷ page) ≡ novel seen page
  unfolding novel
  novel-known h = rw h

  novel-new : includes seen m.id ≡ false → novel seen (m ∷ page) ≡ m ∷ novel (m.id ∷ seen) page
  unfolding novel
  novel-new h = rw h

pub loop_of_page :
    (l : MergeLoop) (page : List ChatMessage)
    → NoEcho l.messages page
    → ((merge_loop l page).messages ≡ l.messages)
      × ((merge_loop l page).new_messages ≡ l.new_messages ++ novel l.existing_ids page)
loop_of_page l [] h = unfold merge_loop novel in (refl, sym (append-nil _))
loop_of_page l (m ∷ page) (e, h) = elim (Bool-cases (includes l.existing_ids m.id)) [
  | inl known ↦
      rw (merge_loop-cons l m page, merge_one-known l m e known, novel-known _ m page known)
        (loop_of_page l page h)
  | inr new ↦
      let l' : MergeLoop = record l {
        new_messages = l.new_messages ++ m ∷ [];
        existing_ids = m.id ∷ l.existing_ids;
      } in
      let (same, added) = loop_of_page l' page h in
      rw (merge_loop-cons l m page, merge_one-new l m e new, novel-new _ m page new)
        (same, added ∙ append_assoc l.new_messages (m ∷ []) _)
]

pub novel-Apart : (seen : List Text) (page : List ChatMessage) → Apart seen (ids (novel seen page))
unfolding novel
novel-Apart seen [] = tt
novel-Apart seen (m ∷ page) = elim (Bool-cases (includes seen m.id)) [
  | inl known ↦ rw known (novel-Apart seen page)
  | inr new ↦ rw new (new, Apart-tail m.id seen _ (novel-Apart (m.id ∷ seen) page))
]

pub novel-Distinct : (seen : List Text) (page : List ChatMessage) → Distinct (ids (novel seen page))
unfolding novel
novel-Distinct seen [] = tt
novel-Distinct seen (m ∷ page) = elim (Bool-cases (includes seen m.id)) [
  | inl known ↦ rw known (novel-Distinct seen page)
  | inr new ↦
      rw new
        (Apart-head m.id seen _ (novel-Apart (m.id ∷ seen) page), novel-Distinct (m.id ∷ seen) page)
]

includes-head : (x : Text) (xs : List Text) → includes (x ∷ xs) x ≡ true
unfolding includes
includes-head x xs = ground (arith, ==_refl x)

-- An id seen now counts as covered however it came to be seen.
cover_weaken :
    (x y : Text) (seen added : List Text)
    → (includes (y ∷ seen) x || includes added x) ≡ true
    → (includes seen x || includes (y ∷ added) x) ≡ true
unfolding includes
cover_weaken x y seen added h = ground arith

-- Every message of the page has an id that was seen before or is among the added ones.
abbrev pub Covered : List Text → List ChatMessage → List ChatMessage → Type 0
Covered seen page added = All (λ m. (includes seen m.id || includes (ids added) m.id) ≡ true) page

pub novel-Covered :
    (seen : List Text) (page : List ChatMessage) → Covered seen page (novel seen page)
novel-Covered seen [] = tt
novel-Covered seen (m ∷ page) = elim (Bool-cases (includes seen m.id)) [
  | inl known ↦
      subst (Covered seen (m ∷ page)) (sym (novel-known seen m page known))
        (rw known refl, novel-Covered seen page)
  | inr new ↦ subst (Covered seen (m ∷ page)) (sym (novel-new seen m page new)) (
    rw new (includes-head m.id _),
    All-map _ _ (λ x h. cover_weaken x.id m.id seen _ h) page (novel-Covered (m.id ∷ seen) page),
  )
]

pub length-novel :
    (seen : List Text) (page : List ChatMessage) → length (novel seen page) ≤ length page
unfolding novel
length-novel seen [] = omega arith
length-novel seen (m ∷ page) =
    ground (arith, length-novel seen page, length-novel (m.id ∷ seen) page)

pub novel-again :
    (seen : List Text) (page : List ChatMessage)
    → All (λ m. includes seen m.id ≡ true) page
    → novel seen page ≡ []
unfolding novel
novel-again seen [] h = refl
novel-again seen (m ∷ page) (k, h) = rw k (novel-again seen page h)
