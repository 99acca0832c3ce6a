-- ===== src/Merge/Rounds.antt =====
-- What the incoming messages do to a window, one after the other, as a relation without the loop.
use mathlib.Core.List.{append-nil, append_assoc}
use token_dance_chat.Base.{
  ℕ, ◌≡◌, sym, ◌∙◌, true, false, List, [], ◌∷◌, ◌++◌, none, some, Text, includes, set, Option-cases,
  Bool-cases, inl, inr,
}
use token_dance_chat.Message.{ChatMessage}
use token_dance_chat.Merge.{MergeLoop, replace_at, echo_position, merge_one, merge_loop}
use token_dance_chat.Merge.Position.{IsEchoAt, NoEcho, echo_position-IsEchoAt, echo_position-NoEcho}
use token_dance_chat.Merge.Window.{merge_one-echo, merge_one-known, merge_one-new}

-- `Merges incoming seen before kept added`: under the ids that were seen, the incoming messages turn
-- the window `before` into `kept` and leave `added` to be put in. A message that echoes an entry
-- takes its place with the entry's reactions; one that echoes none is left out if its id was seen,
-- and is to be put in if not.
pub data Merges
    : List ChatMessage
      → List Text
      → List ChatMessage
      → List ChatMessage
      → List ChatMessage
      → Type 0 where
  finished : {seen : List Text} {kept : List ChatMessage} → Merges [] seen kept kept []
  echoes :
      {m old : ChatMessage} {ms before kept added : List ChatMessage} {seen : List Text} {i : ℕ}
      → IsEchoAt m before i old
      → Merges ms (m.id ∷ seen) (set before i (record m { reactions = old.reactions })) kept added
      → Merges (m ∷ ms) seen before kept added
  repeats :
      {m : ChatMessage} {ms before kept added : List ChatMessage} {seen : List Text}
      → NoEcho m before
      → includes seen m.id ≡ true
      → Merges ms seen before kept added
      → Merges (m ∷ ms) seen before kept added
  adds :
      {m : ChatMessage} {ms before kept added : List ChatMessage} {seen : List Text}
      → NoEcho m before
      → includes seen m.id ≡ false
      → Merges ms (m.id ∷ seen) before kept added
      → Merges (m ∷ ms) seen before kept (m ∷ added)

-- What the loop makes of the incoming messages.
pub record Rounds (incoming : List ChatMessage) (l l' : MergeLoop) : Type 0 where
  pub added : List ChatMessage
  pub new_messages : l'.new_messages ≡ l.new_messages ++ added
  pub merged : Merges incoming l.existing_ids l.messages l'.messages added

module _ (m : ChatMessage) (incoming : List ChatMessage) (l l' : MergeLoop) where
  echo-Rounds :
      (i : ℕ)
      → echo_position l.messages m ≡ some i
      → Rounds incoming (replace_at l m i) l'
      → Rounds (m ∷ incoming) l l'
  unfolding replace_at
  echo-Rounds i e r =
      let (old, (at, why)) = echo_position-IsEchoAt l.messages m i e in
      let q : Rounds incoming _ l' = rw (at, replace_at) at r in
      record { added = q.added; new_messages = q.new_messages; merged = echoes (at, why) q.merged }

  known-Rounds :
      echo_position l.messages m ≡ none
      → includes l.existing_ids m.id ≡ true
      → Rounds incoming l l'
      → Rounds (m ∷ incoming) l l'
  known-Rounds e known r = record {
    added = r.added;
    new_messages = r.new_messages;
    merged = repeats (echo_position-NoEcho l.messages m e) known r.merged;
  }

  new-Rounds :
      echo_position l.messages m ≡ none
      → includes l.existing_ids m.id ≡ false
      → Rounds incoming
          (record l {
            new_messages = l.new_messages ++ m ∷ [];
            existing_ids = m.id ∷ l.existing_ids;
          })
          l'
      → Rounds (m ∷ incoming) l l'
  new-Rounds e new r = record {
    added = m ∷ r.added;
    new_messages = r.new_messages ∙ append_assoc l.new_messages (m ∷ []) r.added;
    merged = adds (echo_position-NoEcho l.messages m e) new r.merged;
  }

  merge_one-Rounds : Rounds incoming (merge_one l m) l' → Rounds (m ∷ incoming) l l'
  merge_one-Rounds r = elim (Option-cases (echo_position l.messages m)) [
    | inr (i, e) ↦ echo-Rounds i e (rw (merge_one-echo l m e) at r)
    | inl e ↦ elim (Bool-cases (includes l.existing_ids m.id)) [
      | inl known ↦ known-Rounds e known (rw (merge_one-known l m e known) at r)
      | inr new ↦ new-Rounds e new (rw (merge_one-new l m e new) at r)
    ]
  ]

pub merge_loop-Rounds :
    (l : MergeLoop) (incoming : List ChatMessage) → Rounds incoming l (merge_loop l incoming)
unfolding merge_loop
merge_loop-Rounds l [] = record { added = []; new_messages = sym (append-nil _); merged = finished }
merge_loop-Rounds l (m ∷ incoming) =
    merge_one-Rounds m incoming l _ (merge_loop-Rounds (merge_one l m) incoming)
