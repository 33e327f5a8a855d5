-- ===== src/Base/Bits.antt =====
-- The `|` of two numbers without a common bit, as the C source joins fields with it.
use Prim.Native.Nat.{max, digits, bit_or, bit_or-bitwise}
use liberdos.Base.{ℕ, zero, suc, ◌+◌, ◌*◌, ◌/◌, ◌^◌, ◌≤◌, ◌<◌, ◌≡◌, refl, ap, ◌∙◌, arith}

-- The digits of `a | b`, where the first number has at most `n` of them.
abbrev joined : ℕ → ℕ → ℕ → ℕ
joined n a b = digits (λ d. d) max n a b

joined-zero : (n a : ℕ) → a ≤ n → joined n a 0 ≡ a
joined-zero zero zero h = refl
joined-zero zero (suc a) h = absurd (omega arith)
joined-zero (suc n) zero h = refl
joined-zero (suc n) (suc a) h = omega (arith, joined-zero n (suc a / 2) (omega arith))

pow_suc : (k : ℕ) → 2 ^ suc k ≡ 2 * 2 ^ k
pow_suc k = omega arith

joined_apart : (k n a q r : ℕ) → a ≡ q * 2 ^ k → a ≤ n → r < 2 ^ k → joined n a r ≡ a + r
joined_apart zero n a q zero e h below = omega (arith, joined-zero n a h)
joined_apart zero n a q (suc r) e h below = absurd (omega arith)
joined_apart (suc k) zero zero q r e h below = omega arith
joined_apart (suc k) zero (suc a) q r e h below = absurd (omega arith)
joined_apart (suc k) (suc n) zero q r e h below = omega arith
joined_apart (suc k) (suc n) (suc a) q r e h below =
    let even : suc a ≡ 2 * (q * 2 ^ k) = omega (arith, e ∙ ap (λ p. q * p) (pow_suc k)) in
    let half : r / 2 < 2 ^ k = omega (arith, pow_suc k) in
    omega (arith, joined_apart k n (suc a / 2) q (r / 2) (omega arith) (omega arith) half)

-- Fields joined by `|` add up when the lower one fits below the other.
pub bit_or_apart : (k q r : ℕ) → r < 2 ^ k → bit_or (q * 2 ^ k) r ≡ q * 2 ^ k + r
bit_or_apart k q r below =
    (λ i. bit_or-bitwise (q * 2 ^ k) r i)
    ∙ joined_apart k (q * 2 ^ k) (q * 2 ^ k) q r refl (omega arith) below

-- The same with the lower field first.
zero-joined : (n a : ℕ) → joined n 0 a ≡ a
zero-joined zero a = refl
zero-joined (suc n) a = refl

joined_below : (k n a q r : ℕ) → a ≡ q * 2 ^ k → r ≤ n → r < 2 ^ k → joined n r a ≡ a + r
joined_below k n a q zero e h below = omega (arith, zero-joined n a)
joined_below zero n a q (suc r) e h below = absurd (omega arith)
joined_below (suc k) zero a q (suc r) e h below = absurd (omega arith)
joined_below (suc k) (suc n) a q (suc r) e h below =
    let even : a ≡ 2 * (q * 2 ^ k) = omega (arith, e ∙ ap (λ p. q * p) (pow_suc k)) in
    let half : suc r / 2 < 2 ^ k = omega (arith, pow_suc k) in
    omega (arith, joined_below k n (a / 2) q (suc r / 2) (omega arith) (omega arith) half)

pub bit_or_below : (k q r : ℕ) → r < 2 ^ k → bit_or r (q * 2 ^ k) ≡ q * 2 ^ k + r
bit_or_below k q r below =
    (λ i. bit_or-bitwise r (q * 2 ^ k) i)
    ∙ joined_below k r (q * 2 ^ k) q r refl (omega arith) below
