-- ===== src/Base/Digits.antt =====
-- The binary digits of a number, and what `&`, `|`, `~` and `<<` do to them.
use pell_os.Base.Tests.{◌==◌, ltb, if◌then◌else◌}
use Prim.Native.Nat.{
  ℕ, zero, suc, ◌+◌, ◌-◌, ◌*◌, ◌/◌, ◌%◌, ◌^◌, ◌≤◌, ◌<◌, min, max, digits, bit_and, bit_or,
  bit_and-bitwise, bit_or-bitwise,
}
use mathlib.Core.Path.{◌≡◌, refl, ap, ◌∙◌}
use native.Mathlib.Omega.{arith}
use pell_os.Base.Bits.{shl, not32}
use pell_os.Base.Masks.{power_positive, power_double}

pub digit : ℕ → ℕ → ℕ
digit zero x = x % 2
digit (suc k) x = digit k (x / 2)

pub digit_bound : (k x : ℕ) → digit k x ≤ 1
unfolding digit
digit_bound zero x = omega arith
digit_bound (suc k) x = digit_bound k (x / 2)

digit-zero : (k : ℕ) → digit k 0 ≡ 0
unfolding digit
digit-zero zero = refl
digit-zero (suc k) = digit-zero k

-- The operations on at most `n` digits.
digit-and_upto :
    (n k a b : ℕ) → a ≤ n → digit k (digits (λ y. 0) min n a b) ≡ min (digit k a) (digit k b)
unfolding digit
digit-and_upto zero k zero b le = rw (digit-zero k) (omega arith)
digit-and_upto zero k (suc a) b le = absurd (omega arith)
digit-and_upto (suc n) k zero b le = rw (digit-zero k) (omega arith)
digit-and_upto (suc n) zero (suc a) b le = omega arith
digit-and_upto (suc n) (suc k) (suc a) b le =
    let rest = digits (λ y. 0) min n (suc a / 2) (b / 2) in
    let half : (rest * 2 + min (suc a % 2) (b % 2)) / 2 ≡ rest = omega arith in
    ap (digit k) half ∙ digit-and_upto n k (suc a / 2) (b / 2) (omega arith)

digit-or_upto :
    (n k a b : ℕ) → a ≤ n → digit k (digits (λ y. y) max n a b) ≡ max (digit k a) (digit k b)
unfolding digit
digit-or_upto zero k zero b le = rw (digit-zero k) (omega arith)
digit-or_upto zero k (suc a) b le = absurd (omega arith)
digit-or_upto (suc n) k zero b le = rw (digit-zero k) (omega arith)
digit-or_upto (suc n) zero (suc a) b le = omega arith
digit-or_upto (suc n) (suc k) (suc a) b le =
    let rest = digits (λ y. y) max n (suc a / 2) (b / 2) in
    let half : (rest * 2 + max (suc a % 2) (b % 2)) / 2 ≡ rest = omega arith in
    ap (digit k) half ∙ digit-or_upto n k (suc a / 2) (b / 2) (omega arith)

pub digit-bit_and : (k a b : ℕ) → digit k (bit_and a b) ≡ min (digit k a) (digit k b)
digit-bit_and k a b = ap (digit k) (bit_and-bitwise a b) ∙ digit-and_upto a k a b (omega arith)

pub digit-bit_or : (k a b : ℕ) → digit k (bit_or a b) ≡ max (digit k a) (digit k b)
digit-bit_or k a b = ap (digit k) (bit_or-bitwise a b) ∙ digit-or_upto a k a b (omega arith)

pub digit-shl : (s k x : ℕ) → digit k (shl x s) ≡ (if ltb k s then 0 else digit (k - s) x)
unfolding digit
digit-shl zero k x =
    let e : x * 2 ^ zero ≡ x = omega arith in
    let d : k - zero ≡ k = omega arith in rw (e, d) (ground arith)
digit-shl (suc s) zero x = let twice = power_double x s in ground (arith, twice)
digit-shl (suc s) (suc k) x =
    let twice = power_double x s in
    let half : shl x (suc s) / 2 ≡ shl x s = omega (arith, twice) in
    let less : ltb (suc k) (suc s) ≡ ltb k s = ground arith in
    let less_by : suc k - suc s ≡ k - s = omega arith in
    rw (less, less_by) (ap (digit k) half ∙ digit-shl s k x)

-- The digits of `2 ^ w - 1 - x`.
pub digit-complement : (w k x : ℕ) → x < 2 ^ w → k < w → digit k (2 ^ w - 1 - x) ≡ 1 - digit k x
unfolding digit
digit-complement zero k x lt small = absurd (omega arith)
digit-complement (suc w) zero x lt small = omega arith
digit-complement (suc w) (suc k) x lt small =
    let half : (2 ^ suc w - 1 - x) / 2 ≡ 2 ^ w - 1 - x / 2 = omega arith in
    ap (digit k) half ∙ digit-complement w k (x / 2) (omega arith) (omega arith)

-- The digits of `2 ^ w - 1`.
pub digit-ones : (w k : ℕ) → digit k (2 ^ w - 1) ≡ (if ltb k w then 1 else 0)
unfolding digit
digit-ones zero k = digit-zero k ∙ ground arith
digit-ones (suc w) zero = let some = power_positive w in ground (arith, some)
digit-ones (suc w) (suc k) =
    let half : (2 ^ suc w - 1) / 2 ≡ 2 ^ w - 1 = omega (arith, power_positive w) in
    let less : ltb (suc k) (suc w) ≡ ltb k w = ground arith in
    rw less (ap (digit k) half ∙ digit-ones w k)

digit-small : (w k x : ℕ) → x < 2 ^ w → w ≤ k → digit k x ≡ 0
unfolding digit
digit-small zero k x lt le = let e : x ≡ 0 = omega arith in rw e (digit-zero k)
digit-small (suc w) zero x lt le = absurd (omega arith)
digit-small (suc w) (suc k) x lt le = digit-small w k (x / 2) (omega arith) (omega arith)

shl_bound : (s w x : ℕ) → x < 2 ^ w → shl x s < 2 ^ (s + w)
shl_bound zero w x lt = let e : zero + w ≡ w = omega arith in omega (arith, ap (λ n. 2 ^ n) e)
shl_bound (suc s) w x lt =
    let twice = power_double x s in
    let e : suc s + w ≡ suc (s + w) = omega arith in
    let sum : 2 ^ (suc s + w) ≡ 2 ^ (s + w) * 2 = ap (λ n. 2 ^ n) e ∙ omega arith in
    omega (arith, twice, sum, shl_bound s w x lt)

power_mono : (m n : ℕ) → m ≤ n → 2 ^ m ≤ 2 ^ n
power_mono zero n le = omega (arith, power_positive n)
power_mono (suc m) zero le = absurd (omega arith)
power_mono (suc m) (suc n) le = omega (arith, power_mono m n (omega arith))

-- A field of `w` digits from digit `s` on is replaced by `v`.
pub digit-field :
    (w s k v x : ℕ)
    → v < 2 ^ w
    → s + w ≤ 32
    → k < 32
    → digit k (bit_or (bit_and x (not32 (shl (2 ^ w - 1) s))) (shl v s))
      ≡ (if ltb k s then digit k x else if ltb (k - s) w then digit (k - s) v else digit k x)
digit-field w s k v x lt fits small =
    let mask = shl (2 ^ w - 1) s in
    let bound : mask < 2 ^ 32 = omega (
      arith,
      shl_bound s w (2 ^ w - 1) (omega (arith, power_positive w)),
      power_mono (s + w) 32 fits,
    ) in
    let both = digit-bit_or k (bit_and x (not32 mask)) (shl v s) in
    let kept = digit-bit_and k x (not32 mask) in
    let out = digit-complement 32 k mask bound small in
    let inside =
      digit-shl s k (2 ^ w - 1) ∙ ap (λ d. if ltb k s then 0 else d) (digit-ones w (k - s)) in
    let new = digit-shl s k v in
    let above = digit-small w (k - s) v lt in
    ground (arith, both, kept, out, inside, new, above, digit_bound k x)

-- `x | 1 << s`
pub digit-bit : (s k x : ℕ) → digit k (bit_or x (shl 1 s)) ≡ (if k == s then 1 else digit k x)
digit-bit s k x =
    let both = digit-bit_or k x (shl 1 s) in
    let new = digit-shl s k 1 in
    let one = digit-ones 1 (k - s) in ground (arith, both, new, one, digit_bound k x)
