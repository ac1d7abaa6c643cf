-- ===== src/Base/Memory.antt =====
-- Memory by bytes, and the little-endian words in it.
use pell_os.Base.Tests.{◌==◌, if◌then◌else◌}
use Prim.Native.Nat.{ℕ, zero, suc, ◌+◌, ◌*◌, ◌/◌, ◌%◌, ◌^◌, ◌≤◌, ◌<◌}
use mathlib.Core.Path.{◌≡◌, refl, ◌∙◌}
use mathlib.Core.Logic.{◌⊎◌, inl, inr}
use native.Mathlib.Omega.{arith}

abbrev pub Memory : Type 0
Memory = ℕ → ℕ

-- The value of the `n` bytes from `a` on.
unfoldable pub read_le : ℕ → Memory → ℕ → ℕ
read_le zero mem a = 0
read_le (suc n) mem a = mem a + 256 * read_le n mem (a + 1)

-- One byte is stored.
abbrev pub store_byte : ℕ → ℕ → Memory → Memory
store_byte a value mem b = if b == a then value else mem b

-- The `n` low bytes of a value, stored from address `a` on.
unfoldable pub store_le : (n a value : ℕ) → Memory → Memory
store_le zero a value mem = mem
store_le (suc n) a value mem = store_le n (a + 1) (value / 256) (store_byte a (value % 256) mem)

-- The 64-bit word at an address.
unfoldable pub read64 : Memory → ℕ → ℕ
unfolding read_le
read64 mem a = read_le 8 mem a

unfoldable pub write64 : ℕ → ℕ → Memory → Memory
unfolding store_le
write64 a value mem = store_le 8 a value mem

-- Two words have no byte in common.
abbrev pub Apart : ℕ → ℕ → Type 0
Apart a b = (a + 8 ≤ b) ⊎ (b + 8 ≤ a)

-- A byte outside the range of a store is kept.
pub store_le-kept :
    (n a value : ℕ) (mem : Memory) (b : ℕ)
    → (b < a) ⊎ (a + n ≤ b)
    → store_le n a value mem b ≡ mem b
unfolding store_le
store_le-kept zero a value mem b out = refl
store_le-kept (suc n) a value mem b out =
    store_le-kept n (a + 1) (value / 256) (store_byte a (value % 256) mem) b
      (elim out [ inl h ↦ inl (omega arith) | inr h ↦ inr (omega arith) ])
    ∙ ground (arith, out)

read_le-same :
    (n a : ℕ) (mem mem' : Memory)
    → ((b : ℕ) → a ≤ b → b < a + n → mem' b ≡ mem b)
    → read_le n mem' a ≡ read_le n mem a
unfolding read_le
read_le-same zero a mem mem' same = refl
read_le-same (suc n) a mem mem' same = omega (
  arith,
  same a (omega arith) (omega arith),
  read_le-same n (a + 1) mem mem' (λ b h h'. same b (omega arith) (omega arith)),
)

-- 256 ^ n
bound : ℕ → ℕ
bound zero = 1
bound (suc n) = 256 * bound n

read_le-store_le :
    (n a value : ℕ) (mem : Memory) → value < bound n → read_le n (store_le n a value mem) a ≡ value
unfolding read_le store_le bound
read_le-store_le zero a value mem h = omega arith
read_le-store_le (suc n) a value mem h =
    let mem' : Memory = store_byte a (value % 256) mem in
    let low : store_le n (a + 1) (value / 256) mem' a ≡ value % 256 =
      store_le-kept n (a + 1) (value / 256) mem' a (inl (omega arith)) ∙ ground arith in
    omega (arith, low, read_le-store_le n (a + 1) (value / 256) mem' (omega arith))

pub read64-write64 :
    (mem : Memory) (a value : ℕ) → value < 2 ^ 64 → read64 (write64 a value mem) a ≡ value
unfolding read64 write64 bound
read64-write64 mem a value h = read_le-store_le 8 a value mem (omega arith)

pub read64-write64-Apart :
    (mem : Memory) (a value b : ℕ) → Apart a b → read64 (write64 a value mem) b ≡ read64 mem b
unfolding read64 write64
read64-write64-Apart mem a value b apart = read_le-same 8 b mem (write64 a value mem) (λ c h h'.
    store_le-kept 8 a value mem c
      (elim apart [ inl k ↦ inr (omega arith) | inr k ↦ inl (omega arith) ]))
