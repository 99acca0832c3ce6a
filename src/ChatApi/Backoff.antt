-- ===== src/ChatApi/Backoff.antt =====
-- The delay before an attempt to reconnect. `Math.random()` is the fraction n / d, with n < d; the
-- rounding of the floating-point product is left out.
use token_dance_chat.Base.{ℕ, zero, suc, ◌+◌, ◌*◌, ◌/◌, ◌^◌, ◌≤◌, ◌<◌, ◌≡◌, min, arith}
use native.Mathlib.Numerals.{towards_suc}
use native.Mathlib.Nat.{div-mul-le_self, lt-div-mul-add}

abbrev pub base_delay : ℕ
base_delay = 1000

abbrev pub max_delay : ℕ
max_delay = 30000

-- `Math.min(base * Math.pow(2, attempt), max)`
unfoldable pub raw_delay : ℕ → ℕ
raw_delay attempt = min (base_delay * 2 ^ attempt) max_delay

-- `Math.round(raw + raw * 0.2 * (random * 2 - 1))`, that is raw * (0.8 + 0.4 * n / d), rounded.
unfoldable pub reconnect_delay : ℕ → ℕ → ℕ → ℕ
reconnect_delay attempt n d = (2 * (raw_delay attempt * (8 * d + 4 * n)) + 10 * d) / (20 * d)

pow-pos : (k : ℕ) → 0 < 2 ^ k
pow-pos zero = omega arith
pow-pos (suc k) = grind (arith, pow-pos k)

raw_bounds : (attempt : ℕ) → (base_delay ≤ raw_delay attempt) × (raw_delay attempt ≤ max_delay)
unfolding raw_delay
raw_bounds attempt = omega (arith, pow-pos attempt)

cancel : (d a b : ℕ) → 0 < d → a * d ≤ b * d → a ≤ b
cancel d a b h e = grind arith

cancel_lt : (d a b : ℕ) → a * d < b * d → a < b
cancel_lt d a b e = grind arith

quotient_bounds :
    (r q n d : ℕ)
    → n < d
    → q * (20 * d) ≤ 2 * (r * (8 * d + 4 * n)) + 10 * d
    → 2 * (r * (8 * d + 4 * n)) + 10 * d < q * (20 * d) + 20 * d
    → (8 * r ≤ 10 * q + 4) × (10 * q ≤ 12 * r + 5)
quotient_bounds r q n d h lo hi =
    let part : r * n ≤ r * d = grind arith in
    let upper : (20 * q) * d ≤ (24 * r + 10) * d = omega arith in
    let lower : (16 * r + 10) * d < (20 * q + 20) * d = omega arith in
    (
      omega (arith, cancel_lt d (16 * r + 10) (20 * q + 20) lower),
      omega (arith, cancel d (20 * q) (24 * r + 10) (omega arith) upper),
    )

reconnect_delay-within :
    (attempt n d : ℕ)
    → n < d
    → (8 * raw_delay attempt ≤ 10 * reconnect_delay attempt n d + 4)
      × (10 * reconnect_delay attempt n d ≤ 12 * raw_delay attempt + 5)
unfolding reconnect_delay
reconnect_delay-within attempt n d h =
    let x = 2 * (raw_delay attempt * (8 * d + 4 * n)) + 10 * d in
    quotient_bounds (raw_delay attempt) (x / (20 * d)) n d h (div-mul-le_self x (20 * d))
      (lt-div-mul-add (omega arith))

-- Whatever the random number, a fraction `n / d` below 1, the delay lies within 20% of the doubled base delay (up to the
-- rounding to whole milliseconds), never under 0.8 s and never over 36 s.
pub reconnect_delay_bounds :
    (attempt n d : ℕ)
    → n < d
    → (8 * raw_delay attempt ≤ 10 * reconnect_delay attempt n d + 4)
      × (10 * reconnect_delay attempt n d ≤ 12 * raw_delay attempt + 5)
      × (800 ≤ reconnect_delay attempt n d)
      × (reconnect_delay attempt n d ≤ 36000)
reconnect_delay_bounds attempt n d h =
    let (lo, hi) = reconnect_delay-within attempt n d h in
    let (least, most) = raw_bounds attempt in (lo, hi, omega arith, omega arith)

-- The undisturbed delay never falls from one attempt to the next, and is 30 s from the sixth on.
pub raw_delay_growth :
    (attempt : ℕ)
    → (raw_delay attempt ≤ raw_delay (suc attempt)) × (raw_delay (attempt + 5) ≡ max_delay)
unfolding raw_delay
raw_delay_growth attempt =
    let five : 2 ^ (attempt + 5) ≡ 32 * 2 ^ attempt = simp towards_suc (omega arith) in
    let one : 2 ^ suc attempt ≡ 2 * 2 ^ attempt = omega arith in
    (omega arith, omega (arith, pow-pos attempt))
