-- ===== src/Store/Receipts.antt =====
-- `markMessagesReadBy`: who is recorded as a reader of which message.
use token_dance_chat.Base.{
  ℕ, ◌≡◌, refl, subst, ◌∙◌, true, false, List, [], ◌∷◌, ◌++◌, some, Text, Dict, ◌==◌, ==_refl,
  insert, lookup-insert, includes, includes-append, get_elem?, arith, zero, suc, Bool-cases, inl,
  inr, ◌⊎◌, ap, All,
}
use token_dance_chat.Message.{ChatMessage}
use token_dance_chat.Store.{ChatState}
use token_dance_chat.Store.Messages.{readers, mark_read, mark_all_read, mark_messages_read_by}

Marked : Text → Dict (List Text) → ChatMessage → Type 0
Marked reader next m = includes (readers next m) reader ≡ true

includes-last : (x : Text) (xs : List Text) → includes (xs ++ x ∷ []) x ≡ true
unfolding includes
includes-last x xs = ground (arith, includes-append xs (x ∷ []) x, ==_refl x)

Marked-insert_same :
    (reader : Text) (next : Dict (List Text)) (m k : ChatMessage)
    → (m.id == k.id) ≡ true
    → Marked reader (insert m.id (readers next m ++ reader ∷ []) next) k
unfolding Marked readers
Marked-insert_same reader next m k e =
    rw (lookup-insert m.id k.id (readers next m ++ reader ∷ []) next, e)
      (includes-last reader (readers next m))

Marked-insert :
    (reader : Text) (next : Dict (List Text)) (m k : ChatMessage)
    → Marked reader next k
    → Marked reader (insert m.id (readers next m ++ reader ∷ []) next) k
unfolding Marked readers
Marked-insert reader next m k h = elim (Bool-cases (m.id == k.id)) [
  | inl e ↦ Marked-insert_same reader next m k e
  | inr e ↦ rw (lookup-insert m.id k.id (readers next m ++ reader ∷ []) next, e) h
]

mark_read_self :
    (username reader : Text) (next : Dict (List Text)) (m : ChatMessage)
    → m.username ≡ username
    → Marked reader (mark_read username reader next m) m
unfolding mark_read
mark_read_self username reader next m e =
    let own : (m.username == username) ≡ true = rw e (==_refl username) in
    elim (Bool-cases (includes (readers next m) reader)) [
      | inl there ↦ rw (own, there) (unfold Marked in there)
      | inr new ↦ rw (own, new) (Marked-insert_same reader next m m (==_refl m.id))
    ]

mark_read-keeps :
    (username reader : Text) (next : Dict (List Text)) (m k : ChatMessage)
    → Marked reader next k
    → Marked reader (mark_read username reader next m) k
unfolding mark_read
mark_read-keeps username reader next m k h = elim (Bool-cases (m.username == username)) [
  | inr other ↦ rw other h
  | inl own ↦ elim (Bool-cases (includes (readers next m) reader)) [
    | inl there ↦ rw (own, there) h
    | inr new ↦ rw (own, new) (Marked-insert reader next m k h)
  ]
]

mark_all_read-keeps :
    (username reader : Text) (next : Dict (List Text)) (ms : List ChatMessage) (k : ChatMessage)
    → Marked reader next k
    → Marked reader (mark_all_read username reader next ms) k
unfolding mark_all_read
mark_all_read-keeps username reader next [] k h = h
mark_all_read-keeps username reader next (m ∷ ms) k h =
    mark_all_read-keeps username reader (mark_read username reader next m) ms k
      (mark_read-keeps username reader next m k h)

mark_all_read-own :
    (username reader : Text) (next : Dict (List Text)) (ms : List ChatMessage) (i : ℕ)
    (m : ChatMessage)
    → get_elem? ms i ≡ some m
    → m.username ≡ username
    → Marked reader (mark_all_read username reader next ms) m
unfolding mark_all_read
mark_all_read-own username reader next [] i m e own = absurd (ground arith)
mark_all_read-own username reader next (x ∷ xs) zero m e own =
    let x_is_m : x ≡ m = ground arith in
    subst
      (λ k. Marked reader (mark_all_read username reader (mark_read username reader next x) xs) k)
      x_is_m
      (mark_all_read-keeps username reader (mark_read username reader next x) xs x
        (mark_read_self username reader next x (ap (λ k. k.username) x_is_m ∙ own)))
mark_all_read-own username reader next (x ∷ xs) (suc i) m e own =
    mark_all_read-own username reader (mark_read username reader next x) xs i m e own

Settled : Text → Text → Dict (List Text) → ChatMessage → Type 0
Settled username reader next m = (m.username == username) ≡ false ⊎ Marked reader next m

mark_read-Settled :
    (username reader : Text) (next : Dict (List Text)) (m : ChatMessage)
    → Settled username reader next m
    → mark_read username reader next m ≡ next
unfolding Settled Marked mark_read
mark_read-Settled username reader next m (inl other) = rw other refl
mark_read-Settled username reader next m (inr there) = elim (Bool-cases (m.username == username)) [
  | inl own ↦ rw (own, there) refl
  | inr other ↦ rw other refl
]

mark_all_read-Settled :
    (username reader : Text) (next : Dict (List Text)) (ms : List ChatMessage)
    → All (Settled username reader (mark_all_read username reader next ms)) ms
unfolding mark_all_read Settled
mark_all_read-Settled username reader next [] = tt
mark_all_read-Settled username reader next (m ∷ ms) =
    let next' = mark_read username reader next m in
    (
      elim (Bool-cases (m.username == username)) [
        | inr other ↦ inl other
        | inl own ↦ inr (
            mark_all_read-keeps username reader next' ms m
              (mark_read_self username reader next m (ground arith)))
      ],
      mark_all_read-Settled username reader next' ms,
    )

mark_all_read-again :
    (username reader : Text) (next : Dict (List Text)) (ms : List ChatMessage)
    → All (Settled username reader next) ms
    → mark_all_read username reader next ms ≡ next
unfolding mark_all_read
mark_all_read-again username reader next [] h = refl
mark_all_read-again username reader next (m ∷ ms) (h, hs) =
    ap (λ d. mark_all_read username reader d ms) (mark_read-Settled username reader next m h)
    ∙ mark_all_read-again username reader next ms hs

-- A message in the window whose author is the user is recorded as read by the reader afterwards.
pub mark_messages_read_by_lem :
    (reader : Text) (s : ChatState) (i : ℕ) (m : ChatMessage)
    → get_elem? s.messages i ≡ some m
    → m.username ≡ s.username
    → includes (readers (mark_messages_read_by reader s).read_by_message_id m) reader ≡ true
unfolding mark_messages_read_by
mark_messages_read_by_lem reader s i m at own =
    unfold Marked in mark_all_read-own s.username reader s.read_by_message_id s.messages i m at own

-- A second receipt from the same reader, directly after the first, changes nothing.
pub mark_messages_read_by_again :
    (reader : Text) (s : ChatState)
    → mark_messages_read_by reader (mark_messages_read_by reader s) ≡ mark_messages_read_by reader s
unfolding mark_messages_read_by
mark_messages_read_by_again reader s =
    ap (λ next. record s { read_by_message_id = next })
      (mark_all_read-again s.username reader
        (mark_all_read s.username reader s.read_by_message_id s.messages) s.messages
        (mark_all_read-Settled s.username reader s.read_by_message_id s.messages))
