-- ===== src/Base/Bits.antt =====
-- The bits of a byte, checked over all bytes by evaluation.
use pell_os.Base.Tests.{ltb, ◌==◌, ==_iff, if◌then◌else◌}
use Prim.Native.Nat.{ℕ, zero, suc, ◌-◌, ◌*◌, ◌/◌, ◌%◌, ◌^◌, ◌<◌, bit_and, bit_or}
use mathlib.Core.Path.{◌≡◌, refl}
use mathlib.Core.Bool.{Bool, true, ◌&&◌}
use native.Mathlib.Omega.{arith}

abbrev pub shl : ℕ → ℕ → ℕ
shl x k = x * 2 ^ k

abbrev pub shr : ℕ → ℕ → ℕ
shr x k = x / 2 ^ k

-- `~x` of a 32-bit value
abbrev pub not32 : ℕ → ℕ
not32 x = 2 ^ 32 - 1 - x

-- bit `k` of `x`
abbrev pub bit : ℕ → ℕ → ℕ
bit x k = shr x k % 2

-- The test `test` holds of the numbers under `count`.
passes : (test : ℕ → Bool) → ℕ → Bool
passes test zero = true
passes test (suc last) = passes test last && test last

passes_at : (test : ℕ → Bool) (count m : ℕ) → m < count → passes test count ≡ true → test m ≡ true
unfolding passes
passes_at test (suc last) m below all = ground (arith, passes_at test last m)
passes_at test zero m below all = absurd (omega arith)

-- All bytes, and all pairs of bit numbers.
unfoldable pub bytes_and_bits : (ℕ → ℕ → ℕ → Bool) → Bool
unfolding passes
bytes_and_bits p = passes (λ b. passes (λ j. passes (p b j) 8) 8) 256

pub bytes_and_bits_sound :
    (p : ℕ → ℕ → ℕ → Bool) (b j k : ℕ)
    → bytes_and_bits p ≡ true
    → b < 256
    → j < 8
    → k < 8
    → p b j k ≡ true
unfolding bytes_and_bits
bytes_and_bits_sound p b j k h hb hj hk = passes_at (p b j) 8 k hk (
    passes_at (λ j. passes (p b j) 8) 8 j hj
      (passes_at (λ b. passes (λ j. passes (p b j) 8) 8) 256 b hb h))

abbrev set_law : ℕ → ℕ → ℕ → Bool
set_law b j k = bit (bit_or b (shl 1 j)) k == (if j == k then 1 else bit b k)

set_table : bytes_and_bits set_law ≡ true
unfolding bytes_and_bits
set_table = refl

abbrev clear_law : ℕ → ℕ → ℕ → Bool
clear_law b j k = bit (bit_and b (not32 (shl 1 j))) k == (if j == k then 0 else bit b k)

clear_table : bytes_and_bits clear_law ≡ true
unfolding bytes_and_bits
clear_table = refl

abbrev range_law : ℕ → ℕ → ℕ → Bool
range_law b j k = ltb (bit_or b (shl 1 j)) 256 && ltb (bit_and b (not32 (shl 1 j))) 256

range_table : bytes_and_bits range_law ≡ true
unfolding bytes_and_bits
range_table = refl

-- `b |= 1 << j` sets bit `j` and no other.
pub bit-bit_or :
    (b j k : ℕ)
    → b < 256
    → j < 8
    → k < 8
    → bit (bit_or b (shl 1 j)) k ≡ (if j == k then 1 else bit b k)
bit-bit_or b j k hb hj hk = (==_iff _ _).0 (bytes_and_bits_sound set_law b j k set_table hb hj hk)

-- `b &= ~(1 << j)` clears bit `j` and no other.
pub bit-bit_and :
    (b j k : ℕ)
    → b < 256
    → j < 8
    → k < 8
    → bit (bit_and b (not32 (shl 1 j))) k ≡ (if j == k then 0 else bit b k)
bit-bit_and b j k hb hj hk =
    (==_iff _ _).0 (bytes_and_bits_sound clear_law b j k clear_table hb hj hk)

pub byte_bounds :
    (b j : ℕ) → b < 256 → j < 8 → (bit_or b (shl 1 j) < 256) × (bit_and b (not32 (shl 1 j)) < 256)
byte_bounds b j hb hj =
    let h = bytes_and_bits_sound range_law b j 0 range_table hb hj (omega arith) in ground arith

abbrev mask_law : ℕ → ℕ → ℕ → Bool
mask_law b j k = bit_and b 1 == b % 2 && bit_and b 255 == b

mask_table : bytes_and_bits mask_law ≡ true
unfolding bytes_and_bits
mask_table = refl

-- What `b & 1` and `b & 255` are of a byte.
pub byte_masks : (b : ℕ) → b < 256 → (bit_and b 1 ≡ b % 2) × (bit_and b 255 ≡ b)
byte_masks b hb =
    let h = bytes_and_bits_sound mask_law b 0 0 mask_table hb (omega arith) (omega arith) in
    ground arith
