-- ===== src/Base/Strings.antt =====
-- JavaScript strings: sequences of UTF-16 code units.
use Prim.Native.Nat.{ℕ}
use Prim.Native.Char.{code}
use Prim.Native.String.{String}
use mathlib.Core.Path.{◌≡◌, refl}
use mathlib.Core.Logic.{◌≢◌}
use mathlib.Core.Bool.{Bool, true, false, ◌||◌}
use mathlib.Core.List.{List, [], ◌∷◌}
use native.Mathlib.Decide.{ℕ_discrete}
use native.Mathlib.Omega.{arith}

abbrev pub Text : Type 0
Text = List ℕ

-- A literal of the source; its characters lie in the basic plane, one code unit each.
abbrev pub lit : String → Text
lit String.[] = []
lit (String.◌∷◌ c s) = code c ∷ lit s

unfoldable pub text_dec : (s t : Text) → Dec (s ≡ t)
unfolding ℕ_discrete
text_dec [] [] = yes refl
text_dec [] (b ∷ t) = no (λ e. cc)
text_dec (a ∷ s) [] = no (λ e. cc)
text_dec (a ∷ s) (b ∷ t) = elim (ℕ_discrete a b) [
  | yes p ↦ elim (text_dec s t) [ yes q ↦ yes (cc) | no q ↦ no (λ e. q (cc)) ]
  | no p ↦ no (λ e. p (cc))
]

-- `===` on strings.
infix 50 ◌==◌
abbrev pub ◌==◌ : Text → Text → Bool
s == t = elim (text_dec s t) [ yes _ ↦ true | no _ ↦ false ]

unfoldable pub text_ne : (s t : Text) → Dec (s ≢ t)
unfolding text_dec
text_ne s t = elim (text_dec s t) [ yes p ↦ no (λ q. q p) | no p ↦ yes p ]

pub ==_refl : (s : Text) → (s == s) ≡ true
==_refl s = ground arith

-- `s.startsWith(p)`, with the prefix first.
unfoldable pub starts_with : Text → Text → Bool
unfolding ℕ_discrete
starts_with [] s = true
starts_with (a ∷ p) [] = false
starts_with (a ∷ p) (b ∷ s) = elim (ℕ_discrete a b) [ yes _ ↦ starts_with p s | no _ ↦ false ]

-- `xs.includes(x)`.
unfoldable pub includes : List Text → Text → Bool
includes [] x = false
includes (y ∷ ys) x = (y == x) || includes ys x
