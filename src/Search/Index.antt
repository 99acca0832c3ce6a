-- ===== src/Search/Index.antt =====
-- The result that is selected.
use token_dance_chat.Base.{
  ℕ, zero, suc, ◌+◌, ◌-◌, ◌≤◌, ◌<◌, min, ◌≡◌, ◌≢◌, refl, List, [], ◌∷◌, Option, none, some,
  get_elem?, length, eqb, arith, subst, Bool-cases, inl, inr, if◌then◌else◌,
}
use token_dance_chat.Message.{ChatMessage}

-- `Math.min(i + 1, results.length - 1)`, with `none` for -1.
unfoldable pub select_next : ℕ → Option ℕ → Option ℕ
select_next zero i = none
select_next (suc n) none = some 0
select_next (suc n) (some i) = some (min (i + 1) n)

-- `Math.max(i - 1, 0)`
unfoldable pub select_prev : Option ℕ → Option ℕ
select_prev none = some 0
select_prev (some i) = some (i - 1)

-- The result that Enter scrolls to.
unfoldable pub selected : List ChatMessage → Option ℕ → Option ChatMessage
selected results none = none
selected results (some i) = get_elem? results i

-- The keys and buttons, and other results, which come with the first one selected where their
-- number is another one; `n` is the number of results before.
pub data SearchEvent : Type 0 where
  moves_down moves_up : SearchEvent
  shows : List ChatMessage → SearchEvent

unfoldable pub search_step : SearchEvent → List ChatMessage × Option ℕ → List ChatMessage × Option ℕ
search_step moves_down (results, i) = (results, select_next (length results) i)
search_step moves_up (results, i) = (results, select_prev i)
search_step (shows next) (results, i) =
    (next, if eqb (length next) (length results) then i else some 0)

unfoldable pub run_search :
    List SearchEvent → List ChatMessage × Option ℕ → List ChatMessage × Option ℕ
run_search [] s = s
run_search (e ∷ es) s = run_search es (search_step e s)

-- The index stands for a result, where there is one.
abbrev pub IsWithin : ℕ → Option ℕ → Type 0
IsWithin zero i = Unit {0}
IsWithin (suc n) none = ⊥
IsWithin (suc n) (some i) = i ≤ n

next-IsWithin : (n : ℕ) (i : Option ℕ) → IsWithin n i → IsWithin n (select_next n i)
unfolding select_next
next-IsWithin zero i h = tt
next-IsWithin (suc n) none h = omega arith
next-IsWithin (suc n) (some i) h = omega arith

prev-IsWithin : (n : ℕ) (i : Option ℕ) → IsWithin n i → IsWithin n (select_prev i)
unfolding select_prev
prev-IsWithin zero i h = tt
prev-IsWithin (suc n) none h = omega arith
prev-IsWithin (suc n) (some i) h = omega arith

first-IsWithin : (n : ℕ) → IsWithin n (some 0)
first-IsWithin zero = tt
first-IsWithin (suc n) = omega arith

abbrev Within : List ChatMessage × Option ℕ → Type 0
Within s = IsWithin (length s.0) s.1

step-Within :
    (e : SearchEvent) (results : List ChatMessage) (i : Option ℕ)
    → IsWithin (length results) i
    → Within (search_step e (results, i))
unfolding search_step
step-Within moves_down results i h = next-IsWithin (length results) i h
step-Within moves_up results i h = prev-IsWithin (length results) i h
step-Within (shows next) results i h = elim (Bool-cases (eqb (length next) (length results))) [
  | inl equal ↦
      let e : length results ≡ length next = ground (arith, equal) in
      rw equal (subst (λ n. IsWithin n i) e h)
  | inr other ↦ rw other (first-IsWithin (length next))
]

run-Within :
    (es : List SearchEvent) (results : List ChatMessage) (i : Option ℕ)
    → IsWithin (length results) i
    → Within (run_search es (results, i))
unfolding run_search
run-Within [] results i h = h
run-Within (e ∷ es) results i h =
    let s = search_step e (results, i) in run-Within es s.0 s.1 (step-Within e results i h)

get_elem?-some : (xs : List ChatMessage) (i : ℕ) → i < length xs → get_elem? xs i ≢ none
get_elem?-some [] i h e = absurd (omega arith)
get_elem?-some (x ∷ xs) zero h e = cc
get_elem?-some (x ∷ xs) (suc i) h e = get_elem?-some xs i (omega arith) e

within_selected :
    (results : List ChatMessage) (i : Option ℕ)
    → IsWithin (length results) i
    → selected results i ≡ none
    → results ≡ []
unfolding selected
within_selected [] i h e = refl
within_selected (x ∷ results) none h e = elim h [ ]
within_selected (x ∷ results) (some i) h e = absurd (get_elem?-some (x ∷ results) i (omega arith) e)

-- From the search just opened on, after any keys, buttons and changes of the results, there is
-- always a selected result that Enter goes to, unless there is no result at all.
pub run_search-selected :
    (es : List SearchEvent) (results : List ChatMessage)
    → let s = run_search es (results, some 0) in selected s.0 s.1 ≡ none → s.0 ≡ []
run_search-selected es results =
    let s = run_search es (results, some 0) in
    within_selected s.0 s.1 (run-Within es results (some 0) (first-IsWithin (length results)))
