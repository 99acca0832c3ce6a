-- ===== src/Merge/Position.antt =====
-- Which entry a message echoes, stated without the searches of the code.
use token_dance_chat.Base.{
  ℕ, zero, suc, ◌+◌, ◌-◌, ◌≤◌, ◌<◌, ◌≡◌, ◌≢◌, refl, sym, ap, ◌∙◌, ◌⊎◌, Bool, true, false, List, [],
  ◌∷◌, Option, none, some, arith, Text, lit, length, get_elem?, find_index, find_index_sound,
  find_index-none, eqb, get_elem?_bound, starts_with, Option-cases, Bool-cases, inl, inr, ◌==◌,
  ==_refl,
}
use token_dance_chat.Message.{ChatMessage}
use token_dance_chat.Merge.{
  client_position, is_optimistic, is_twin, holds_at, scan_down, twin_position, echo_position,
}

-- The message names the entry by its `client_message_id`.
abbrev pub Names : ChatMessage → ChatMessage → Type 0
Names msg old = (msg.client_message_id ≡ some old.id) × (old.id ≢ [])

-- The message is the server's copy of an optimistic entry, if it is not optimistic itself: user and
-- text agree, and the times within five seconds.
abbrev pub IsTwin : ChatMessage → ChatMessage → Type 0
IsTwin msg old =
    (starts_with (lit "optimistic_") old.id ≡ true)
    × (old.username ≡ msg.username)
    × (old.content ≡ msg.content)
    × (old.timestamp < msg.timestamp + 5000)
    × (msg.timestamp < old.timestamp + 5000)

abbrev pub NoneNamed : ChatMessage → List ChatMessage → Type 0
NoneNamed msg kept =
    (j : ℕ) (other : ChatMessage) → get_elem? kept j ≡ some other → ¬ Names msg other

-- The first entry that the message names; or, where it names none, the newest twin among the last
-- five entries.
abbrev pub IsEchoAt : ChatMessage → List ChatMessage → ℕ → ChatMessage → Type 0
IsEchoAt msg kept i old =
    (get_elem? kept i ≡ some old)
    × ((Names msg old
          × ((j : ℕ) (other : ChatMessage)
              → j < i
              → get_elem? kept j ≡ some other
              → ¬ Names msg other))
        ⊎ (NoneNamed msg kept
            × (starts_with (lit "optimistic_") msg.id ≡ false)
            × IsTwin msg old
            × (length kept ≤ i + 5)
            × ((j : ℕ) (other : ChatMessage)
                → i < j
                → get_elem? kept j ≡ some other
                → ¬ IsTwin msg other)))

-- The message names no entry, and is optimistic itself or has no twin among the last five.
abbrev pub NoEcho : ChatMessage → List ChatMessage → Type 0
NoEcho msg kept =
    NoneNamed msg kept
    × ((starts_with (lit "optimistic_") msg.id ≡ true)
        ⊎ ((j : ℕ) (other : ChatMessage)
            → length kept ≤ j + 5
            → get_elem? kept j ≡ some other
            → ¬ IsTwin msg other))

find_index-suc :
    (p : ChatMessage → Bool) (x : ChatMessage) (xs : List ChatMessage) (i : ℕ)
    → find_index p (x ∷ xs) ≡ some (suc i)
    → (p x ≡ false) × (find_index p xs ≡ some i)
unfolding find_index
find_index-suc p x xs i h = elim (Bool-cases (p x)) [
  | inl hit ↦ absurd (ground (arith, h, hit))
  | inr miss ↦ (miss, ground (arith, h, miss))
]

find_index_first :
    (p : ChatMessage → Bool) (xs : List ChatMessage) (i j : ℕ) (other : ChatMessage)
    → find_index p xs ≡ some i
    → j < i
    → get_elem? xs j ≡ some other
    → p other ≡ false
unfolding find_index
find_index_first p [] i j other h l e = cc
find_index_first p (x ∷ xs) zero j other h l e = elim l [ ]
find_index_first p (x ∷ xs) (suc i) zero other h l e = ground (arith, h, e)
find_index_first p (x ∷ xs) (suc i) (suc j) other h l e =
    let (_, rest) = find_index-suc p x xs i h in
    find_index_first p xs i j other rest (omega (arith, l)) e

scan_down_sound :
    (p : ChatMessage → Bool) (ms : List ChatMessage) (start k i : ℕ)
    → scan_down p ms start k ≡ some i
    → (start ≤ i) × (holds_at p ms i ≡ true)
unfolding scan_down
scan_down_sound p ms start zero i h = cc
scan_down_sound p ms start (suc k) i h = ground (arith, scan_down_sound p ms start k i)

scan_down_newest :
    (p : ChatMessage → Bool) (ms : List ChatMessage) (start k i j : ℕ)
    → scan_down p ms start k ≡ some i
    → i < j
    → j < start + k
    → holds_at p ms j ≡ false
unfolding scan_down
scan_down_newest p ms start zero i j h l r = cc
scan_down_newest p ms start (suc k) i j h l r = elim (Bool-cases (holds_at p ms (start + k))) [
  | inl hit ↦
      let here : start + k ≡ i = ground (arith, h, hit) in absurd (omega (arith, here, l, r))
  | inr miss ↦ elim (Bool-cases (eqb j (start + k))) [
    | inl last ↦ let at : j ≡ start + k = ground (arith, last) in ap (holds_at p ms) at ∙ miss
    | inr before ↦
        scan_down_newest p ms start k i j (ground (arith, h, miss)) l (ground (arith, before, r))
  ]
]

scan_down-none :
    (p : ChatMessage → Bool) (ms : List ChatMessage) (start k j : ℕ)
    → scan_down p ms start k ≡ none
    → start ≤ j
    → j < start + k
    → holds_at p ms j ≡ false
unfolding scan_down
scan_down-none p ms start zero j h l r = absurd (omega (arith, l, r))
scan_down-none p ms start (suc k) j h l r = elim (Bool-cases (holds_at p ms (start + k))) [
  | inl hit ↦ absurd (ground (arith, h, hit))
  | inr miss ↦ elim (Bool-cases (eqb j (start + k))) [
    | inl last ↦ let at : j ≡ start + k = ground (arith, last) in ap (holds_at p ms) at ∙ miss
    | inr before ↦
        scan_down-none p ms start k j (ground (arith, h, miss)) l (ground (arith, before, r))
  ]
]

-- The code's test of a twin.
is_twin-IsTwin : (msg old : ChatMessage) → is_twin msg old ≡ true → IsTwin msg old
unfolding is_twin is_optimistic
is_twin-IsTwin msg old h = ground (arith, h)

IsTwin-is_twin : (msg old : ChatMessage) → IsTwin msg old → is_twin msg old ≡ true
unfolding is_twin is_optimistic
IsTwin-is_twin msg old (o, u, c, a, b) =
    ground (arith, o, u, c, a, b, ==_refl msg.username, ==_refl msg.content)

-- A scan at positions that hold entries.
holds_at_lem :
    (p : ChatMessage → Bool) (ms : List ChatMessage) (i : ℕ) (m : ChatMessage)
    → get_elem? ms i ≡ some m
    → holds_at p ms i ≡ p m
holds_at_lem p ms i m e = ground (arith, e)

holds_at_sound :
    (p : ChatMessage → Bool) (ms : List ChatMessage) (i : ℕ)
    → holds_at p ms i ≡ true
    → (m : ChatMessage) × (get_elem? ms i ≡ some m) × (p m ≡ true)
holds_at_sound p ms i h = elim (Option-cases (get_elem? ms i)) [
  | inl e ↦ absurd (ground arith)
  | inr (m, e) ↦ (m, e, ground arith)
]

not-IsTwin :
    (msg other : ChatMessage) (kept : List ChatMessage) (j : ℕ)
    → get_elem? kept j ≡ some other
    → holds_at (is_twin msg) kept j ≡ false
    → ¬ IsTwin msg other
not-IsTwin msg other kept j e h twin =
    let yes_ = holds_at_lem (is_twin msg) kept j other e ∙ IsTwin-is_twin msg other twin in cc

client_position-none :
    (kept : List ChatMessage) (msg : ChatMessage) (c : Option Text)
    → msg.client_message_id ≡ c
    → client_position kept c ≡ none
    → NoneNamed msg kept
unfolding client_position
client_position-none kept msg none e h j other at (names, full) = cc
client_position-none kept msg (some []) e h j other at (names, full) = full (cc)
client_position-none kept msg (some (c ∷ cs)) e h j other at (names, full) =
    let miss = find_index-none (λ m. m.id == (c ∷ cs)) kept j h at in
    let same : other.id ≡ c ∷ cs = cc in ground (arith, miss, same)

client_position-some :
    (kept : List ChatMessage) (msg : ChatMessage) (c : Option Text) (i : ℕ)
    → msg.client_message_id ≡ c
    → client_position kept c ≡ some i
    → (old : ChatMessage) × IsEchoAt msg kept i old
unfolding client_position
client_position-some kept msg none i e h = cc
client_position-some kept msg (some []) i e h = cc
client_position-some kept msg (some (c ∷ cs)) i e h =
    let p = λ (m : ChatMessage). m.id == (c ∷ cs) in
    let (old, at, hit) = find_index_sound p kept i h in
    let same : old.id ≡ c ∷ cs = ground (arith, hit) in
    let first =
      λ (j : ℕ) (other : ChatMessage) (l : j < i) (there : get_elem? kept j ≡ some other)
          (n : Names msg other).
        let miss : (other.id == (c ∷ cs)) ≡ false = find_index_first p kept i j other h l there in
        let named : some (c ∷ cs) ≡ some other.id = sym e ∙ n.0 in
        let none_left : ⊥ = ground (arith, miss, named) in none_left in
    (old, (at, inl ((e ∙ ap some (sym same), λ empty. cc), first)))

twin_position-some :
    (kept : List ChatMessage) (msg : ChatMessage) (i : ℕ)
    → NoneNamed msg kept
    → twin_position kept msg ≡ some i
    → (old : ChatMessage) × IsEchoAt msg kept i old
unfolding twin_position is_optimistic
twin_position-some kept msg i unnamed h = elim (Bool-cases (is_optimistic msg)) [
  | inl own ↦ absurd (ground (arith, h, own))
  | inr server ↦
      let n = length kept in
      let start = n - 5 in
      let scan : scan_down (is_twin msg) kept start (n - start) ≡ some i =
        ground (arith, h, server) in
      let (low, hit) = scan_down_sound (is_twin msg) kept start (n - start) i scan in
      let (old, at, twin) = holds_at_sound (is_twin msg) kept i hit in
      let newest =
        λ (j : ℕ) (other : ChatMessage) (l : i < j) (there : get_elem? kept j ≡ some other).
          let bound = get_elem?_bound kept j there in
          not-IsTwin msg other kept j there (
            scan_down_newest (is_twin msg) kept start (n - start) i j scan l
              (omega (arith, bound))) in
      (old, (at, inr (unnamed, server, is_twin-IsTwin msg old twin, omega (arith, low), newest)))
]

twin_position-none :
    (kept : List ChatMessage) (msg : ChatMessage)
    → NoneNamed msg kept
    → twin_position kept msg ≡ none
    → NoEcho msg kept
unfolding twin_position is_optimistic
twin_position-none kept msg unnamed h = elim (Bool-cases (is_optimistic msg)) [
  | inl own ↦ (unnamed, inl own)
  | inr server ↦
      let n = length kept in
      let start = n - 5 in
      let scan : scan_down (is_twin msg) kept start (n - start) ≡ none =
        ground (arith, h, server) in
      (
        unnamed,
        inr (λ j other l there.
            let bound = get_elem?_bound kept j there in
            not-IsTwin msg other kept j there (
              scan_down-none (is_twin msg) kept start (n - start) j scan (omega (arith, l))
                (omega (arith, bound)))),
      )
]

-- The search of the code finds the entry that the message echoes, if there is one.
pub echo_position-IsEchoAt :
    (kept : List ChatMessage) (msg : ChatMessage) (i : ℕ)
    → echo_position kept msg ≡ some i
    → (old : ChatMessage) × IsEchoAt msg kept i old
unfolding echo_position
echo_position-IsEchoAt kept msg i h =
    elim (Option-cases (client_position kept msg.client_message_id)) [
      | inl e ↦
          twin_position-some kept msg i (client_position-none kept msg msg.client_message_id refl e)
            (rw (e, echo_position) at h)
      | inr (j, e) ↦
          client_position-some kept msg msg.client_message_id i refl (ground (arith, e, h))
    ]

pub echo_position-NoEcho :
    (kept : List ChatMessage) (msg : ChatMessage) → echo_position kept msg ≡ none → NoEcho msg kept
unfolding echo_position
echo_position-NoEcho kept msg h = elim (Option-cases (client_position kept msg.client_message_id)) [
  | inl e ↦
      twin_position-none kept msg (client_position-none kept msg msg.client_message_id refl e)
        (rw (e, echo_position) at h)
  | inr (j, e) ↦ absurd (ground (arith, e, h))
]
