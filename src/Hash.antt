-- ===== src/Hash.antt =====
-- frontend/src/lib/utils.ts: `hashString`, by which names get their colours.
--
-- A number of the browser is the difference of two naturals; it is exact below 2 ^ 53.
mod Tests
use token_dance_chat.Base.{
  ℕ, zero, suc, ◌+◌, ◌-◌, ◌*◌, ◌%◌, ◌^◌, ◌≤◌, ◌<◌, ◌≡◌, refl, ap, ◌∙◌, Bool, true, false, List, [],
  ◌∷◌, Text, length, ltb, arith, All, ◌⊎◌, inl, inr, Bool-cases, if◌then◌else◌,
}

pub record Number : Type 0 where
  pub plus : ℕ
  pub minus : ℕ

abbrev pub word : ℕ
word = 4294967296

abbrev pub half : ℕ
half = 2147483648

-- The residue of `plus - minus`.
abbrev pub residue : Number → ℕ
residue h = (h.plus + (word - h.minus % word)) % word

-- The signed reading of a word of 32 bits.
abbrev pub signed : ℕ → Number
signed u =
    if ltb u half then record { plus = u; minus = 0 } else record { plus = 0; minus = word - u }

-- `hash << 5`
abbrev pub shift_left : Number → Number
shift_left h = signed ((32 * h.plus + (word - (32 * h.minus) % word)) % word)

-- `str.charCodeAt(i) + ((hash << 5) - hash)`, which is not cut to 32 bits.
unfoldable pub hash_step : Number → ℕ → Number
hash_step h c = record {
  plus = c + (shift_left h).plus + h.minus;
  minus = (shift_left h).minus + h.plus;
}

unfoldable pub hash_loop : Number → Text → Number
hash_loop h [] = h
hash_loop h (c ∷ s) = hash_loop (hash_step h c) s

-- `Math.abs(hash)`
unfoldable pub hash_string : Text → ℕ
hash_string s =
    let h = hash_loop (record { plus = 0; minus = 0 }) s in (h.plus - h.minus) + (h.minus - h.plus)

unfoldable pub username_hue : Text → ℕ
username_hue username = hash_string username % 360

-- The reference: the polynomial in 31, modulo 2 ^ 32.
abbrev pub horner : ℕ → Text → ℕ
horner a [] = a
horner a (c ∷ s) = horner ((31 * a + c) % word) s

step-residue : (h : Number) (c : ℕ) → residue (hash_step h c) ≡ (31 * residue h + c) % word
unfolding hash_step
step-residue h c = ground arith

loop-residue : (h : Number) (s : Text) → residue (hash_loop h s) ≡ horner (residue h) s
unfolding hash_loop
loop-residue h [] = refl
loop-residue h (c ∷ s) = loop-residue (hash_step h c) s ∙ ap (λ a. horner a s) (step-residue h c)

abbrev magnitude : Number → ℕ
magnitude h = (h.plus - h.minus) + (h.minus - h.plus)

step-magnitude :
    (h : Number) (c : ℕ) → c < 65536 → magnitude (hash_step h c) ≤ magnitude h + (half + 65536)
unfolding hash_step
step-magnitude h c u = ground arith

loop-magnitude :
    (h : Number) (s : Text)
    → All (λ c. c < 65536) s
    → magnitude (hash_loop h s) ≤ magnitude h + length s * (half + 65536)
unfolding hash_loop
loop-magnitude h [] a = omega arith
loop-magnitude h (c ∷ s) (u, a) =
    omega (arith, step-magnitude h c u, loop-magnitude (hash_step h c) s a)

or_opposite :
    (h : Number) → (magnitude h % word ≡ residue h) ⊎ ((magnitude h + residue h) % word ≡ 0)
or_opposite h = elim (Bool-cases (ltb h.plus h.minus)) [
  | inl below ↦ inr (ground (arith, below))
  | inr above ↦ inl (ground (arith, above))
]

-- The hash of a text of code units is, up to its sign, the polynomial in 31 of its code units modulo
-- 2 ^ 32, although the code cuts only the product to 32 bits and lets the sum grow: it is at
-- most the number of code units times 2 ^ 31 + 2 ^ 16.
pub hash_string_lem :
    (s : Text)
    → All (λ c. c < 65536) s
    → ((hash_string s % word ≡ horner 0 s) ⊎ ((hash_string s + horner 0 s) % word ≡ 0))
      × (hash_string s ≤ length s * (half + 65536))
unfolding hash_string
hash_string_lem s a =
    let start : Number = record { plus = 0; minus = 0 } in
    let h = hash_loop start s in
    (rw (← loop-residue start s) (or_opposite h), omega (arith, loop-magnitude start s a))
