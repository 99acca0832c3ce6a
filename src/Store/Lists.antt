-- ===== src/Store/Lists.antt =====
-- The two idioms by which the store keeps lists of names: add unless there, and filter out.
use token_dance_chat.Base.{
  ◌≡◌, refl, false, ◌||◌, List, [], ◌∷◌, ◌++◌, arith, Text, ◌==◌, includes, includes-append,
  Distinct, Distinct-append, Bool-cases, inl, inr, if◌then◌else◌,
}

-- `xs.includes(x) ? xs : [...xs, x]`
unfoldable pub add_name : Text → List Text → List Text
add_name x xs = if includes xs x then xs else xs ++ x ∷ []

-- `xs.filter((y) => y !== x)`
unfoldable pub remove_name : Text → List Text → List Text
remove_name x [] = []
remove_name x (y ∷ ys) = if y == x then remove_name x ys else y ∷ remove_name x ys

pub includes-add_name :
    (x z : Text) (xs : List Text) → includes (add_name x xs) z ≡ (includes xs z || (x == z))
unfolding add_name includes
includes-add_name x z xs = ground (arith, includes-append xs (x ∷ []) z)

pub includes-remove_name :
    (x z : Text) (xs : List Text)
    → includes (remove_name x xs) z ≡ (if x == z then false else includes xs z)
unfolding remove_name includes
includes-remove_name x z [] = ground arith
includes-remove_name x z (y ∷ ys) = ground (arith, includes-remove_name x z ys)

pub add_name-Distinct : (x : Text) (xs : List Text) → Distinct xs → Distinct (add_name x xs)
unfolding add_name
add_name-Distinct x xs d = elim (Bool-cases (includes xs x)) [
  | inl there ↦ rw there d
  | inr new ↦ rw new (Distinct-append xs (x ∷ []) d (unfold includes in refl, tt) (new, tt))
]

pub remove_name-Distinct : (x : Text) (xs : List Text) → Distinct xs → Distinct (remove_name x xs)
unfolding remove_name
remove_name-Distinct x [] d = tt
remove_name-Distinct x (y ∷ ys) (n, d) =
    ground (arith, includes-remove_name x y ys, remove_name-Distinct x ys d)
