-- ===== src/Merge/Window.antt =====
-- What a merge makes of a window: the entries that stay, the entries that are added, and the cap.
use token_dance_chat.Base.{
  ℕ, zero, suc, ◌≡◌, refl, sym, ◌∙◌, ◌⊎◌, inl, inr, List, [], ◌∷◌, ◌++◌, none, some, true, false,
  arith, Text, includes, get_elem?, set, Option-cases, Bool-cases, Among, length, ap,
}
use mathlib.Core.List.{append-nil, append_assoc}
use token_dance_chat.Message.{ChatMessage}
use token_dance_chat.Merge.{MergeLoop, echo_of, replace_at, echo_position, merge_one, merge_loop}

-- The three outcomes of a round.
module _ (l : MergeLoop) (m : ChatMessage) where
  pub merge_one-echo :
      {i : ℕ} → echo_position l.messages m ≡ some i → merge_one l m ≡ replace_at l m i
  unfolding merge_one
  merge_one-echo e = rw (e, merge_one)

  pub merge_one-known :
      echo_position l.messages m ≡ none → includes l.existing_ids m.id ≡ true → merge_one l m ≡ l
  unfolding merge_one
  merge_one-known e known = rw (e, known, merge_one)

  pub merge_one-new :
      echo_position l.messages m ≡ none
      → includes l.existing_ids m.id ≡ false
      → merge_one l m
        ≡ record l { new_messages = l.new_messages ++ m ∷ []; existing_ids = m.id ∷ l.existing_ids }
  unfolding merge_one
  merge_one-new e new = rw (e, new, merge_one)

  pub merge_loop-cons :
      (ms : List ChatMessage) → merge_loop l (m ∷ ms) ≡ merge_loop (merge_one l m) ms
  unfolding merge_loop
  merge_loop-cons ms = refl

pub merge_loop-nil : (l : MergeLoop) → merge_loop l [] ≡ l
unfolding merge_loop
merge_loop-nil l = refl

-- An entry is as it was, or an incoming echo has taken its place and kept its reactions.
abbrev pub Updated : List ChatMessage → ChatMessage → ChatMessage → Type 0
Updated incoming old new =
    (new ≡ old) ⊎ ((msg : ChatMessage) × Among msg incoming × (new ≡ echo_of msg old))

-- Entry by entry.
abbrev pub Refreshed : List ChatMessage → List ChatMessage → List ChatMessage → Type 0
Refreshed incoming [] [] = Unit
Refreshed incoming (o ∷ os) (n ∷ ns) = Updated incoming o n × Refreshed incoming os ns
Refreshed incoming _ _ = ⊥

-- Some of the second list's elements, in its order.
pub data Picked : List ChatMessage → List ChatMessage → Type 0 where
  done : Picked [] []
  skip : {m : ChatMessage} {xs ys : List ChatMessage} → Picked xs ys → Picked xs (m ∷ ys)
  pick : {m : ChatMessage} {xs ys : List ChatMessage} → Picked xs ys → Picked (m ∷ xs) (m ∷ ys)

pub Refreshed-refl : (incoming xs : List ChatMessage) → Refreshed incoming xs xs
Refreshed-refl incoming [] = tt
Refreshed-refl incoming (x ∷ xs) = (inl refl, Refreshed-refl incoming xs)

Refreshed-widen :
    (m : ChatMessage) (incoming xs ys : List ChatMessage)
    → Refreshed incoming xs ys
    → Refreshed (m ∷ incoming) xs ys
Refreshed-widen m incoming [] [] r = tt
Refreshed-widen m incoming [] (y ∷ ys) r = elim r [ ]
Refreshed-widen m incoming (x ∷ xs) [] r = elim r [ ]
Refreshed-widen m incoming (x ∷ xs) (y ∷ ys) (inl e, r) =
    (inl e, Refreshed-widen m incoming xs ys r)
Refreshed-widen m incoming (x ∷ xs) (y ∷ ys) (inr (msg, a, e), r) =
    (inr (msg, inr a, e), Refreshed-widen m incoming xs ys r)

-- One more echo, at position `i`.
Refreshed-set :
    (m : ChatMessage) (incoming xs ys : List ChatMessage) (i : ℕ) (old : ChatMessage)
    → get_elem? xs i ≡ some old
    → Refreshed incoming (set xs i (echo_of m old)) ys
    → Refreshed (m ∷ incoming) xs ys
Refreshed-set m incoming [] ys i old e r = cc
Refreshed-set m incoming (x ∷ xs) [] zero old e r = elim r [ ]
Refreshed-set m incoming (x ∷ xs) [] (suc i) old e r = elim r [ ]
Refreshed-set m incoming (x ∷ xs) (y ∷ ys) zero old e (inl p, r) =
    (inr (m, inl refl, cc), Refreshed-widen m incoming xs ys r)
Refreshed-set m incoming (x ∷ xs) (y ∷ ys) zero old e (inr (msg, a, p), r) =
    (inr (msg, inr a, ground arith), Refreshed-widen m incoming xs ys r)
Refreshed-set m incoming (x ∷ xs) (y ∷ ys) (suc i) old e (inl p, r) =
    (inl p, Refreshed-set m incoming xs ys i old e r)
Refreshed-set m incoming (x ∷ xs) (y ∷ ys) (suc i) old e (inr (msg, a, p), r) =
    (inr (msg, inr a, p), Refreshed-set m incoming xs ys i old e r)

-- The state of the loop after some incoming messages, against the window before it.
pub record Progress (incoming : List ChatMessage) (l l' : MergeLoop) : Type 0 where
  pub added : List ChatMessage
  pub refreshed : Refreshed incoming l.messages l'.messages
  pub new_messages : l'.new_messages ≡ l.new_messages ++ added
  pub picked : Picked added incoming

module _ (m : ChatMessage) (incoming : List ChatMessage) (l l' : MergeLoop) where
  Progress-skip : Progress incoming l l' → Progress (m ∷ incoming) l l'
  Progress-skip p = record {
    added = p.added;
    refreshed = Refreshed-widen m incoming _ _ p.refreshed;
    new_messages = p.new_messages;
    picked = skip p.picked;
  }

  replace_at-Progress :
      (i : ℕ) → Progress incoming (replace_at l m i) l' → Progress (m ∷ incoming) l l'
  unfolding replace_at
  replace_at-Progress i p = elim (Option-cases (get_elem? l.messages i)) [
    | inl e ↦ Progress-skip (rw (e, replace_at) at p)
    | inr (old, e) ↦
        let q : Progress incoming _ l' = rw (e, replace_at) at p in
        record {
          added = q.added;
          refreshed = Refreshed-set m incoming _ _ i old e q.refreshed;
          new_messages = q.new_messages;
          picked = skip q.picked;
        }
  ]

  add-Progress :
      (existing : List Text)
      → Progress incoming
          (record l { new_messages = l.new_messages ++ m ∷ []; existing_ids = existing })
          l'
      → Progress (m ∷ incoming) l l'
  add-Progress existing p = record {
    added = m ∷ p.added;
    refreshed = Refreshed-widen m incoming _ _ p.refreshed;
    new_messages = p.new_messages ∙ append_assoc l.new_messages (m ∷ []) p.added;
    picked = pick p.picked;
  }

  merge_one-Progress : Progress incoming (merge_one l m) l' → Progress (m ∷ incoming) l l'
  merge_one-Progress p = elim (Option-cases (echo_position l.messages m)) [
    | inr (i, e) ↦ replace_at-Progress i (rw (merge_one-echo l m e) at p)
    | inl e ↦ elim (Bool-cases (includes l.existing_ids m.id)) [
      | inl known ↦ Progress-skip (rw (merge_one-known l m e known) at p)
      | inr new ↦ add-Progress _ (rw (merge_one-new l m e new) at p)
    ]
  ]

pub merge_loop-Progress :
    (l : MergeLoop) (incoming : List ChatMessage) → Progress incoming l (merge_loop l incoming)
unfolding merge_loop
merge_loop-Progress l [] = record {
  added = [];
  refreshed = Refreshed-refl [] l.messages;
  new_messages = sym (append-nil _);
  picked = done;
}
merge_loop-Progress l (m ∷ incoming) =
    merge_one-Progress m incoming l _ (merge_loop-Progress (merge_one l m) incoming)

pub Refreshed-length :
    (incoming xs ys : List ChatMessage) → Refreshed incoming xs ys → length ys ≡ length xs
Refreshed-length incoming [] [] r = refl
Refreshed-length incoming [] (y ∷ ys) r = elim r [ ]
Refreshed-length incoming (x ∷ xs) [] r = elim r [ ]
Refreshed-length incoming (x ∷ xs) (y ∷ ys) (_, r) = ap suc (Refreshed-length incoming xs ys r)
