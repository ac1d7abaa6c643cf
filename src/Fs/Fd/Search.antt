-- ===== src/Fs/Fd/Search.antt =====
-- What the search of `create_fd` (src/fs/fd.c) finds in the bitmap.
use pell_os.Base.{
  ℕ, zero, suc, ◌+◌, ◌/◌, ◌%◌, ◌<◌, ◌≡◌, inl, inr, refl, Bool, true, ◌&&◌, Option, none, some, List,
  [], ◌∷◌, arith, ltb, ◌==◌, ==_iff, if◌then◌else◌, get_or, length, All, Bool-cases,
}
use pell_os.Base.Bits.{bit, bytes_and_bits, bytes_and_bits_sound}
use pell_os.Fs.Fd.{find_bit, find_fd}

abbrev pub IsByte : ℕ → Type 0
IsByte b = b < 256

-- The bit of descriptor `n`.
abbrev pub in_use : List ℕ → ℕ → ℕ
in_use bytes n = bit (get_or bytes (n / 8) 0) (n % 8)

-- The inner loop over every byte: the bits before the one that is found are set.
abbrev bit_law : ℕ → ℕ → ℕ → Bool
bit_law b j k = elim (find_bit 8 0 b) [
  | none ↦ bit b k == 1 && b == 255
  | some found ↦ ltb found 8 && bit b found == 0 && (if ltb k found then bit b k == 1 else true)
]

bit_table : bytes_and_bits bit_law ≡ true
unfolding bytes_and_bits find_bit
bit_table = refl

abbrev FoundBit : ℕ → Option ℕ → Type 0
FoundBit b none = b ≡ 255
FoundBit b (some j) = (j < 8) × (bit b j ≡ 0) × ((k : ℕ) → k < 8 → k < j → bit b k ≡ 1)

bit_law_at : (b k : ℕ) → IsByte b → k < 8 → bit_law b 0 k ≡ true
bit_law_at b k hb hk = bytes_and_bits_sound bit_law b 0 k bit_table hb (omega arith) hk

find_bit-FoundBit : (b : ℕ) → IsByte b → FoundBit b (find_bit 8 0 b)
find_bit-FoundBit b hb = go (find_bit 8 0 b) (λ k hk. bit_law_at b k hb hk)
  where
    go :
        (r : Option ℕ)
        → ((k : ℕ)
            → k < 8
            → (elim r [
              | none ↦ bit b k == 1 && b == 255
              | some found ↦
                  ltb found 8 && bit b found == 0 && (if ltb k found then bit b k == 1 else true)
            ])
              ≡ true)
        → FoundBit b r
    go none h = ground (arith, h 0 (omega arith))
    go (some j) h = (
      ground (arith, h 0 (omega arith)),
      ground (arith, h 0 (omega arith)),
      λ k hk lt. ground (arith, h k hk),
    )

-- All eight bits of the byte 255 are set.
full_law : bytes_and_bits (λ b j k. if b == 255 then bit b k == 1 else true) ≡ true
unfolding bytes_and_bits
full_law = refl

bit-full : (b k : ℕ) → b ≡ 255 → k < 8 → bit b k ≡ 1
bit-full b k e hk =
    let h =
      bytes_and_bits_sound (λ b j k. if b == 255 then bit b k == 1 else true) b 0 k full_law
        (omega arith) (omega arith) hk in
    ground arith

-- The search from byte `i` on stops at the first clear bit, if there is one.
abbrev pub Scanned : List ℕ → ℕ → Option (ℕ × ℕ) → Type 0
Scanned bytes i none = (m k : ℕ) → m < length bytes → k < 8 → bit (get_or bytes m 0) k ≡ 1
Scanned bytes i (some (b, j)) =
    (m : ℕ) × (b ≡ i + m)
    × (m < length bytes)
    × (j < 8)
    × (bit (get_or bytes m 0) j ≡ 0)
    × ((k : ℕ) → k < 8 → k < j → bit (get_or bytes m 0) k ≡ 1)
    × ((n k : ℕ) → n < m → k < 8 → bit (get_or bytes n 0) k ≡ 1)

Scanned-cons :
    (b : ℕ) (bs : List ℕ) (i : ℕ) (r : Option (ℕ × ℕ))
    → b ≡ 255
    → Scanned bs (i + 1) r
    → Scanned (b ∷ bs) i r
Scanned-cons b bs i none e s = all
  where
    all : (m k : ℕ) → m < suc (length bs) → k < 8 → bit (get_or (b ∷ bs) m 0) k ≡ 1
    all zero k hm hk = bit-full b k e hk
    all (suc m) k hm hk = s m k (omega arith) hk
Scanned-cons b bs i (some (x, j)) e s =
    (suc s.0, omega (arith, s.1), omega (arith, s.2), s.3, s.4, s.5, before)
  where
    before : (n k : ℕ) → n < suc s.0 → k < 8 → bit (get_or (b ∷ bs) n 0) k ≡ 1
    before zero k hn hk = bit-full b k e hk
    before (suc n) k hn hk = s.6 n k (omega arith) hk

find_fd-full : (b : ℕ) (bs : List ℕ) (i : ℕ) → b ≡ 255 → find_fd (b ∷ bs) i ≡ find_fd bs (i + 1)
unfolding find_fd
find_fd-full b bs i e = rw e

find_fd-some :
    (b : ℕ) (bs : List ℕ) (i j : ℕ)
    → FoundBit b (some j)
    → find_bit 8 0 b ≡ some j
    → find_fd (b ∷ bs) i ≡ some (i, j)
unfolding find_fd
find_fd-some b bs i j found e = elim (Bool-cases (b == 255)) [
  | inl full ↦ absurd (omega (arith, bit-full b j ((==_iff b 255).0 full) found.0, found.1))
  | inr more ↦ rw (more, e)
]

Scanned-byte :
    (b : ℕ) (bs : List ℕ) (i : ℕ) (r : Option ℕ)
    → FoundBit b r
    → Scanned bs (i + 1) (find_fd bs (i + 1))
    → find_bit 8 0 b ≡ r
    → Scanned (b ∷ bs) i (find_fd (b ∷ bs) i)
Scanned-byte b bs i none found ih e =
    rw (find_fd-full b bs i found) (Scanned-cons b bs i (find_fd bs (i + 1)) found ih)
Scanned-byte b bs i (some j) found ih e =
    rw (find_fd-some b bs i j found e)
      (0, omega arith, omega arith, found.0, found.1, found.2, λ n k hn hk. absurd (omega arith))

pub find_fd-Scanned :
    (bytes : List ℕ) (i : ℕ) → All IsByte bytes → Scanned bytes i (find_fd bytes i)
find_fd-Scanned [] i h = unfold find_fd in λ m k hm hk. absurd (omega arith)
find_fd-Scanned (b ∷ bs) i h =
    Scanned-byte b bs i (find_bit 8 0 b) (find_bit-FoundBit b h.0) (find_fd-Scanned bs (i + 1) h.1)
      refl
