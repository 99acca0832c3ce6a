-- ===== src/Base/Members.antt =====
-- Membership, distinctness and pointwise facts on lists.
use Prim.Native.Nat.{ℕ, zero, suc}
use mathlib.Core.Path.{◌≡◌, refl}
use mathlib.Core.Logic.{◌⊎◌}
use mathlib.Core.Bool.{false, ◌||◌}
use mathlib.Core.List.{List, [], ◌∷◌, ◌++◌}
use native.Mathlib.Omega.{arith}
use token_dance_chat.Base.Strings.{Text, includes}
use token_dance_chat.Base.Lists.{take, drop}

module _ {ℓ κ} {A : Type ℓ} (P : A → Type κ) where
  abbrev pub All : List A → Type κ
  All [] = Unit
  All (x ∷ xs) = P x × All xs

  pub All-append : (xs ys : List A) → All xs → All ys → All (xs ++ ys)
  All-append [] ys h k = k
  All-append (x ∷ xs) ys (p, h) k = (p, All-append xs ys h k)

  pub All-take : (n : ℕ) (xs : List A) → All xs → All (take n xs)
  All-take zero xs h = tt
  All-take (suc n) [] h = tt
  All-take (suc n) (x ∷ xs) (p, h) = (p, All-take n xs h)

  pub All-drop : (n : ℕ) (xs : List A) → All xs → All (drop n xs)
  All-drop zero xs h = h
  All-drop (suc n) [] h = tt
  All-drop (suc n) (x ∷ xs) (p, h) = All-drop n xs h

pub All-map {ℓ κ μ} :
    {A : Type ℓ} (P : A → Type κ) (Q : A → Type μ) (f : (x : A) → P x → Q x) (xs : List A)
    → All P xs
    → All Q xs
All-map P Q f [] h = tt
All-map P Q f (x ∷ xs) (p, h) = (f x p, All-map P Q f xs h)

-- The element stands somewhere in the list.
abbrev pub Among : {A : Type 0} → A → List A → Type 0
Among x [] = ⊥
Among x (y ∷ ys) = (x ≡ y) ⊎ Among x ys

-- No text occurs twice.
abbrev pub Distinct : List Text → Type 0
Distinct [] = Unit
Distinct (x ∷ xs) = (includes xs x ≡ false) × Distinct xs

pub includes-append :
    (xs ys : List Text) (z : Text) → includes (xs ++ ys) z ≡ (includes xs z || includes ys z)
unfolding includes
includes-append [] ys z = refl
includes-append (x ∷ xs) ys z = ground (arith, includes-append xs ys z)

-- No member of the second list stands in the first.
abbrev pub Apart : List Text → List Text → Type 0
Apart xs ys = All (λ y. includes xs y ≡ false) ys

pub Apart-head : (x : Text) (xs ys : List Text) → Apart (x ∷ xs) ys → includes ys x ≡ false
unfolding includes
Apart-head x xs [] h = refl
Apart-head x xs (y ∷ ys) (p, h) = ground (arith, Apart-head x xs ys h)

pub Apart-tail : (x : Text) (xs ys : List Text) → Apart (x ∷ xs) ys → Apart xs ys
unfolding includes
Apart-tail x xs [] h = tt
Apart-tail x xs (y ∷ ys) (p, h) = (ground arith, Apart-tail x xs ys h)

pub Distinct-append :
    (xs ys : List Text) → Distinct xs → Distinct ys → Apart xs ys → Distinct (xs ++ ys)
Distinct-append [] ys d e h = e
Distinct-append (x ∷ xs) ys (n, d) e h = (
  ground (arith, includes-append xs ys x, Apart-head x xs ys h),
  Distinct-append xs ys d e (Apart-tail x xs ys h),
)

pub Apart-nil_left : (ys : List Text) → Apart [] ys
unfolding includes
Apart-nil_left [] = tt
Apart-nil_left (y ∷ ys) = (refl, Apart-nil_left ys)

pub Apart-cons_left :
    (x : Text) (xs ys : List Text) → includes ys x ≡ false → Apart xs ys → Apart (x ∷ xs) ys
unfolding includes
Apart-cons_left x xs [] n h = tt
Apart-cons_left x xs (y ∷ ys) n (p, h) = (ground arith, Apart-cons_left x xs ys (ground arith) h)

pub Apart-sym : (xs ys : List Text) → Apart xs ys → Apart ys xs
Apart-sym xs [] h = Apart-nil_left xs
Apart-sym xs (y ∷ ys) (p, h) = Apart-cons_left y ys xs p (Apart-sym xs ys h)

pub includes-take :
    (n : ℕ) (xs : List Text) (x : Text) → includes xs x ≡ false → includes (take n xs) x ≡ false
unfolding includes
includes-take zero xs x h = refl
includes-take (suc n) [] x h = refl
includes-take (suc n) (y ∷ xs) x h = ground (arith, includes-take n xs x)

pub Distinct-take : (n : ℕ) (xs : List Text) → Distinct xs → Distinct (take n xs)
Distinct-take zero xs d = tt
Distinct-take (suc n) [] d = tt
Distinct-take (suc n) (x ∷ xs) (h, d) = (includes-take n xs x h, Distinct-take n xs d)

pub Distinct-drop : (n : ℕ) (xs : List Text) → Distinct xs → Distinct (drop n xs)
Distinct-drop zero xs d = d
Distinct-drop (suc n) [] d = tt
Distinct-drop (suc n) (x ∷ xs) (h, d) = Distinct-drop n xs d
