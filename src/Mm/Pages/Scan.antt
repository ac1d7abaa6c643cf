-- ===== src/Mm/Pages/Scan.antt =====
-- What the search of `get_next_free_page` (src/mm/mm.c) finds in the bitmap.
use pell_os.Base.{
  ℕ, zero, suc, ◌+◌, ◌%◌, ◌<◌, ◌≡◌, refl, Option, none, some, List, [], ◌∷◌, arith, get_or, length,
  All, ◌⊎◌, inl, inr,
}
use pell_os.Base.Bits.{bit, byte_masks}
use pell_os.Mm.Pages.{scan_bytes}

abbrev pub IsByte : ℕ → Type 0
IsByte b = b < 256

-- Page `k` is marked as handed out: bit 0 of its byte.
abbrev pub used : List ℕ → ℕ → ℕ
used bytes k = bit (get_or bytes k 0) 0

scan_bytes-used :
    (b : ℕ) (bs : List ℕ) (i : ℕ)
    → IsByte b
    → b % 2 ≡ 1
    → scan_bytes (b ∷ bs) i ≡ scan_bytes bs (i + 1)
unfolding scan_bytes
scan_bytes-used b bs i hb h = ground (arith, byte_masks b hb)

scan_bytes-free :
    (b : ℕ) (bs : List ℕ) (i : ℕ) → IsByte b → b % 2 ≡ 0 → scan_bytes (b ∷ bs) i ≡ some (i, 0)
unfolding scan_bytes
scan_bytes-free b bs i hb h = ground (arith, byte_masks b hb)

-- The search from byte `i` on stops at the first page that is not marked, if there is one.
abbrev pub Scanned : List ℕ → ℕ → Option (ℕ × ℕ) → Type 0
Scanned bytes i none = (m : ℕ) → m < length bytes → used bytes m ≡ 1
Scanned bytes i (some (k, j)) =
    (m : ℕ) × (k ≡ i + m)
    × (j ≡ 0)
    × (m < length bytes)
    × (used bytes m ≡ 0)
    × ((n : ℕ) → n < m → used bytes n ≡ 1)

Scanned-cons :
    (b : ℕ) (bs : List ℕ) (i : ℕ) (r : Option (ℕ × ℕ))
    → b % 2 ≡ 1
    → Scanned bs (i + 1) r
    → Scanned (b ∷ bs) i r
Scanned-cons b bs i none h s = λ m hm. first m hm
  where
    first : (m : ℕ) → m < suc (length bs) → used (b ∷ bs) m ≡ 1
    first zero hm = omega arith
    first (suc m) hm = s m (omega arith)
Scanned-cons b bs i (some (k, j)) h s =
    (suc s.0, omega (arith, s.1), s.2, omega (arith, s.3), s.4, λ n hn. before n hn)
  where
    before : (n : ℕ) → n < suc s.0 → used (b ∷ bs) n ≡ 1
    before zero hn = omega arith
    before (suc n) hn = s.5 n (omega arith)

parity : (b : ℕ) → (b % 2 ≡ 1) ⊎ (b % 2 ≡ 0)
parity b = omega arith

pub scan_bytes-Scanned :
    (bytes : List ℕ) (i : ℕ) → All IsByte bytes → Scanned bytes i (scan_bytes bytes i)
scan_bytes-Scanned [] i h = unfold scan_bytes in λ m hm. absurd (omega arith)
scan_bytes-Scanned (b ∷ bs) i h = elim (parity b) [
  | inl odd ↦
      rw (scan_bytes-used b bs i h.0 odd)
        (Scanned-cons b bs i (scan_bytes bs (i + 1)) odd (scan_bytes-Scanned bs (i + 1) h.1))
  | inr even ↦
      rw (scan_bytes-free b bs i h.0 even)
        (zero, omega arith, refl, omega arith, omega arith, λ n hn. absurd (omega arith))
]
