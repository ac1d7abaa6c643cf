-- ===== src/Base/Masks.antt =====
-- What `&` and `|` do with numbers whose low bits are set apart.
use Prim.Native.Nat.{
  ℕ, zero, suc, ◌+◌, ◌-◌, ◌*◌, ◌/◌, ◌%◌, ◌^◌, ◌≤◌, ◌<◌, min, max, digits, bit_and, bit_or,
  bit_and-bitwise, bit_or-bitwise,
}
use mathlib.Core.Path.{◌≡◌, refl, ap, ◌∙◌}
use native.Mathlib.Omega.{arith}

-- The two operations on the digits of `a`, of which there are at most `n`.
abbrev and_upto : ℕ → ℕ → ℕ → ℕ
and_upto n a b = digits (λ y. 0) min n a b

abbrev or_upto : ℕ → ℕ → ℕ → ℕ
or_upto n a b = digits (λ y. y) max n a b

pub power_positive : (k : ℕ) → 0 < 2 ^ k
power_positive zero = omega arith
power_positive (suc k) = omega (arith, power_positive k)

pub power_double : (x k : ℕ) → x * 2 ^ suc k ≡ x * 2 ^ k * 2
power_double x k = let e : 2 ^ suc k ≡ 2 ^ k * 2 = omega arith in ap (λ y. x * y) e ∙ omega arith

and_upto-nothing : (n a : ℕ) → a ≤ n → and_upto n a 0 ≡ 0
and_upto-nothing zero a le = refl
and_upto-nothing (suc n) zero le = refl
and_upto-nothing (suc n) (suc a) le = omega (arith, and_upto-nothing n (suc a / 2) (omega arith))

or_upto-nothing : (n a : ℕ) → a ≤ n → or_upto n a 0 ≡ a
or_upto-nothing zero a le = omega arith
or_upto-nothing (suc n) zero le = refl
or_upto-nothing (suc n) (suc a) le = omega (arith, or_upto-nothing n (suc a / 2) (omega arith))

-- `a & (2 ^ k - 1)` is the low part of `a`.
and_upto-low :
    (k n a q r : ℕ) → a ≤ n → a ≡ q * 2 ^ k + r → r < 2 ^ k → and_upto n a (2 ^ k - 1) ≡ r
and_upto-low zero n a q r le e lt = and_upto-nothing n a le ∙ omega arith
and_upto-low (suc k) zero a q r le e lt = omega arith
and_upto-low (suc k) (suc n) zero q r le e lt = omega arith
and_upto-low (suc k) (suc n) (suc a) q r le e lt =
    let half : (2 ^ suc k - 1) / 2 ≡ 2 ^ k - 1 = omega (arith, power_positive k) in
    let odd : (2 ^ suc k - 1) % 2 ≡ 1 = omega (arith, power_positive k) in
    let twice = power_double q k in
    let ih =
      and_upto-low k n (suc a / 2) q (r / 2) (omega arith) (omega (arith, twice)) (omega arith) in
    rw (half, odd, ih) (omega (arith, twice))

-- `a & ((2 ^ w - 1) << k)` is `a` without its low part.
and_upto-high :
    (k w n a q r : ℕ)
    → a ≤ n
    → a ≡ q * 2 ^ k + r
    → r < 2 ^ k
    → q < 2 ^ w
    → and_upto n a ((2 ^ w - 1) * 2 ^ k) ≡ q * 2 ^ k
and_upto-high zero w n a q r le e lt small =
    let mask : (2 ^ w - 1) * 2 ^ zero ≡ 2 ^ w - 1 = omega arith in
    rw (mask, and_upto-low w n a 0 q le (omega arith) small) (omega arith)
and_upto-high (suc k) w zero a q r le e lt small = omega arith
and_upto-high (suc k) w (suc n) zero q r le e lt small = omega arith
and_upto-high (suc k) w (suc n) (suc a) q r le e lt small =
    let twice = power_double q k in
    let mask = power_double (2 ^ w - 1) k in
    let half : ((2 ^ w - 1) * 2 ^ suc k) / 2 ≡ (2 ^ w - 1) * 2 ^ k = omega (arith, mask) in
    let even : ((2 ^ w - 1) * 2 ^ suc k) % 2 ≡ 0 = omega (arith, mask) in
    let ih =
      and_upto-high k w n (suc a / 2) q (r / 2) (omega arith) (omega (arith, twice)) (omega arith)
        small in
    rw (half, even, ih) (omega (arith, twice))

-- `a | r` for low bits that `a` does not have.
or_upto-low : (k n a q r : ℕ) → a ≤ n → a ≡ q * 2 ^ k → r < 2 ^ k → or_upto n a r ≡ a + r
or_upto-low zero n a q r le e lt =
    let none : r ≡ 0 = omega arith in rw (none, or_upto-nothing n a le) (omega arith)
or_upto-low (suc k) zero a q r le e lt = omega arith
or_upto-low (suc k) (suc n) zero q r le e lt = omega arith
or_upto-low (suc k) (suc n) (suc a) q r le e lt =
    let twice = power_double q k in
    let ih =
      or_upto-low k n (suc a / 2) q (r / 2) (omega arith) (omega (arith, twice)) (omega arith) in
    rw ih (omega (arith, twice))

pub bit_and-low : (k q r : ℕ) → r < 2 ^ k → bit_and (q * 2 ^ k + r) (2 ^ k - 1) ≡ r
bit_and-low k q r lt =
    bit_and-bitwise (q * 2 ^ k + r) (2 ^ k - 1)
    ∙ and_upto-low k (q * 2 ^ k + r) (q * 2 ^ k + r) q r (omega arith) refl lt

pub bit_and-high :
    (k w q r : ℕ)
    → r < 2 ^ k
    → q < 2 ^ w
    → bit_and (q * 2 ^ k + r) ((2 ^ w - 1) * 2 ^ k) ≡ q * 2 ^ k
bit_and-high k w q r lt small =
    bit_and-bitwise (q * 2 ^ k + r) ((2 ^ w - 1) * 2 ^ k)
    ∙ and_upto-high k w (q * 2 ^ k + r) (q * 2 ^ k + r) q r (omega arith) refl lt small

pub bit_or-low : (k q r : ℕ) → r < 2 ^ k → bit_or (q * 2 ^ k) r ≡ q * 2 ^ k + r
bit_or-low k q r lt =
    bit_or-bitwise (q * 2 ^ k) r ∙ or_upto-low k (q * 2 ^ k) (q * 2 ^ k) q r (omega arith) refl lt
