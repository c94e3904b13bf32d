-- ===== src/Prelude/Bits.antt =====
-- The bitwise or of machine words, bit by bit from the lowest.
use Prim.Native.Nat.{ℕ, zero, suc, ◌+◌, ◌-◌, ◌*◌, ◌/◌, ◌%◌, ◌^◌, ◌≤◌, ◌<◌, max}
use mathlib.Core.Path.{◌≡◌}
use native.Mathlib.Nat.{pow-suc, one-le-pow}
use native.Mathlib.Omega.{arith}

-- `a | b` in a word of `width` bits.
unfoldable pub word_or : ℕ → ℕ → ℕ → ℕ
word_or zero a b = 0
word_or (suc width) a b = word_or width (a / 2) (b / 2) * 2 + max (a % 2) (b % 2)

word_or-zero : (width a : ℕ) → a < 2 ^ width → word_or width a 0 ≡ a
unfolding word_or
word_or-zero zero a h = omega arith
word_or-zero (suc width) a h = omega (arith, pow-suc 2 width, word_or-zero width (a / 2))

-- Where the low k bits are 0, `n | (1<<k - 1)` is a sum.
pub word_or-ones :
    (width k q : ℕ)
    → k ≤ width
    → q * 2 ^ k < 2 ^ width
    → word_or width (q * 2 ^ k) (2 ^ k - 1) ≡ q * 2 ^ k + (2 ^ k - 1)
unfolding word_or
word_or-ones width zero q le h = ground (arith, word_or-zero width q)
word_or-ones zero (suc k) q le h = absurd (omega arith)
word_or-ones (suc width) (suc k) q le h =
    let double : 2 ^ suc k ≡ 2 * 2 ^ k = omega (arith, pow-suc 2 k) in
    let whole : q * 2 ^ suc k ≡ 2 * (q * 2 ^ k) = grind arith in
    let upper : q * 2 ^ suc k / 2 ≡ q * 2 ^ k = omega arith in
    let ones : (2 ^ suc k - 1) / 2 ≡ 2 ^ k - 1 = omega (arith, one-le-pow k 2) in
    let rest : word_or width (q * 2 ^ suc k / 2) ((2 ^ suc k - 1) / 2) ≡ q * 2 ^ k + (2 ^ k - 1) =
      rw (upper, ones) (word_or-ones width k q (omega arith) (omega (arith, pow-suc 2 width))) in
    let low : (q * 2 ^ suc k % 2 ≡ 0) × ((2 ^ suc k - 1) % 2 ≡ 1) =
      (omega arith, omega (arith, one-le-pow k 2)) in
    omega (arith, rest, low.0, low.1, one-le-pow k 2)
