-- ===== src/Base/Int.antt =====
-- Signed machine integers: the values of `sint32_t` and `sint64_t` variables.
use pell_os.Base.Tests.{ltb, leb, if◌then◌else◌}
use mathlib.Core.Path.{◌≡◌}
use mathlib.Core.Bool.{Bool}
use native.Mathlib.Omega.{arith}
use Prim.Native.Nat.{ℕ, suc, ◌+◌, ◌-◌, ◌/◌, ◌%◌, ◌^◌, ◌≤◌, ◌<◌}

-- `negsuc n` is -(n + 1).
pub data ℤ : Type 0 where
  pos : ℕ → ℤ
  negsuc : ℕ → ℤ

abbrev pub pos_part : ℤ → ℕ
pos_part (pos n) = n
pos_part (negsuc n) = 0

abbrev pub neg_part : ℤ → ℕ
neg_part (pos n) = 0
neg_part (negsuc n) = suc n

-- a - b, as an integer.
abbrev pub sub_ℕ : ℕ → ℕ → ℤ
sub_ℕ a b = if leb b a then pos (a - b) else negsuc (b - a - 1)

infixl 65 ◌+ℤ◌ ◌-ℤ◌
infix 50 ◌≤ℤ◌ ◌<ℤ◌
unfoldable pub ◌+ℤ◌ : ℤ → ℤ → ℤ
a +ℤ b = sub_ℕ (pos_part a + pos_part b) (neg_part a + neg_part b)

unfoldable pub ◌-ℤ◌ : ℤ → ℤ → ℤ
a -ℤ b = sub_ℕ (pos_part a + neg_part b) (neg_part a + pos_part b)

abbrev pub ◌≤ℤ◌ : ℤ → ℤ → Type 0
a ≤ℤ b = pos_part a + neg_part b ≤ pos_part b + neg_part a

abbrev pub ◌<ℤ◌ : ℤ → ℤ → Type 0
a <ℤ b = pos_part a + neg_part b < pos_part b + neg_part a

abbrev pub ltb_ℤ : ℤ → ℤ → Bool
ltb_ℤ a b = ltb (pos_part a + neg_part b) (pos_part b + neg_part a)

-- `a >> 1`, the arithmetic shift, which rounds down.
unfoldable pub half : ℤ → ℤ
half (pos n) = pos (n / 2)
half (negsuc n) = negsuc (n / 2)

-- The low 32 bits, read as an `sint32_t`.
abbrev pub signed32 : ℕ → ℤ
signed32 w = if ltb w (2 ^ 31) then pos w else negsuc (2 ^ 32 - w - 1)

unfoldable pub to_sint32 : ℤ → ℤ
to_sint32 (pos n) = signed32 (n % 2 ^ 32)
to_sint32 (negsuc n) = signed32 (2 ^ 32 - 1 - n % 2 ^ 32)

-- The range of an `sint32_t`.
abbrev pub IsSint32 : ℤ → Type 0
IsSint32 a = (pos_part a < 2 ^ 31) × (neg_part a ≤ 2 ^ 31)

-- The cast keeps what fits.
pub to_sint32_lem : (a : ℤ) → IsSint32 a → to_sint32 a ≡ a
unfolding to_sint32
to_sint32_lem (pos n) h = ground arith
to_sint32_lem (negsuc n) h = ground arith
