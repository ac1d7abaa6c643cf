-- ===== src/Mm/Pages/Free.antt =====
-- `free_page` of the bitmap variant (src/mm/mm.c): it looks for page `m` at bit `m % 8` of byte
-- `m / 8`, while `get_next_free_page` marks bit 0 of byte `m`.
use pell_os.Base.{
  ℕ, ◌*◌, ◌/◌, ◌%◌, ◌<◌, ◌≡◌, ◌≢◌, ◌⊎◌, inl, inr, List, arith, ◌==◌, if◌then◌else◌, Bool-cases,
  bit_and, get_or, set, length, length-set, get_or-set_self, get_or-set_ne, All, All-set,
  All-get_or, ==_iff,
}
use pell_os.Base.Bits.{shl, not32, bit-bit_and, byte_bounds}
use pell_os.Mm.Pages.{Pages, get_next_free_page, free_page, page_index, mm_num_of_pages}
use pell_os.Mm.Pages.Scan.{IsByte, used}
use pell_os.Mm.Pages.Alloc.{IsValid, page_address, IsFull, Allocated, get_next_free_page-Outcome}

page_index-page_address : (m : ℕ) → m < mm_num_of_pages → page_index (page_address m) ≡ m
page_index-page_address m h = omega arith

used-clear :
    (bytes : List ℕ) (i j n : ℕ)
    → All IsByte bytes
    → i < length bytes
    → j < 8
    → used (set bytes i (bit_and (get_or bytes i 0) (not32 (shl 1 j)))) n
      ≡ (if i == n then (if j == 0 then 0 else used bytes n) else used bytes n)
used-clear bytes i j n hb hi hj = elim (Bool-cases (i == n)) [
  | inl e ↦
      let e' : i ≡ n = (==_iff i n).0 e in
      rw (e, ← e', get_or-set_self bytes i (bit_and (get_or bytes i 0) (not32 (shl 1 j))) 0 hi)
        (bit-bit_and (get_or bytes i 0) j 0 (All-get_or IsByte bytes i 0 hb (omega arith)) hj
          (omega arith))
  | inr e ↦ rw (
    e,
    get_or-set_ne bytes i n (bit_and (get_or bytes i 0) (not32 (shl 1 j))) 0
        (λ q. ground (arith, (==_iff i n).1 q)),
  )
]

used-free_page :
    (p : Pages) (m n : ℕ)
    → IsValid p
    → m < length p.page_bitmap
    → used (free_page (page_address m) p).page_bitmap n ≡ (
        if m / 8 == n
        then (if m % 8 == 0 then 0 else used p.page_bitmap n)
        else used p.page_bitmap n)
unfolding free_page
used-free_page p m n v h =
    rw (page_index-page_address m (omega (arith, v.size)))
      (used-clear p.page_bitmap (m / 8) (m % 8) n v.bytes (omega arith) (omega arith))

pub free_page-IsValid : (p : Pages) (ptr : ℕ) → IsValid p → IsValid (free_page ptr p)
unfolding free_page
free_page-IsValid p ptr v =
    let i = page_index ptr / 8 in
    let j = page_index ptr % 8 in
    record {
      bytes =
          All-set IsByte p.page_bitmap i (bit_and (get_or p.page_bitmap i 0) (not32 (shl 1 j)))
            v.bytes
            (byte_bounds (get_or p.page_bitmap i 0) j
              (All-get_or IsByte p.page_bitmap i 0 v.bytes (omega arith)) (omega arith)).1;
      size = omega (arith, length-set p.page_bitmap i, v.size);
    }

-- Freeing a page that is handed out leaves it marked as handed out, for every page but the first
-- of a valid bitmap.
pub free_page-leaks :
    (p : Pages) (m : ℕ)
    → IsValid p
    → m < length p.page_bitmap
    → 0 < m
    → used p.page_bitmap m ≡ 1
    → used (free_page (page_address m) p).page_bitmap m ≡ 1
free_page-leaks p m v h pos u = ground (arith, used-free_page p m m v h)

first_free :
    (p : Pages) (k : ℕ) (r : ℕ × Pages)
    → k < length p.page_bitmap
    → used p.page_bitmap k ≡ 0
    → ((n : ℕ) → n < length p.page_bitmap → n ≢ k → used p.page_bitmap n ≡ 1)
    → (IsFull p × (r.0 ≡ 0) × (r.1 ≡ p)) ⊎ ((m : ℕ) × Allocated p r.0 r.1 m × IsValid r.1)
    → r.0 ≡ page_address k
first_free p k r hk free others (inl full) = absurd (omega (arith, full.0 k hk))
first_free p k r hk free others (inr (m, a, _)) = elim (Bool-cases (m == k)) [
  | inl e ↦ omega (arith, a.address, (==_iff m k).0 e)
  | inr e ↦
      absurd
        (omega (arith, a.free_before, others m a.in_range (λ q. ground (arith, (==_iff m k).1 q))))
]

-- With every page of a valid bitmap handed out, freeing page `8 * k` makes the next allocation
-- return page `k`, which, for `k` above 0, is another page.
pub free_page-wrong_page :
    (p : Pages) (k : ℕ)
    → IsValid p
    → IsFull p
    → 8 * k < length p.page_bitmap
    → (get_next_free_page (free_page (page_address (8 * k)) p)).0 ≡ page_address k
free_page-wrong_page p k v full h =
    first_free q k (get_next_free_page q) (omega (arith, size))
      (ground (arith, used-free_page p (8 * k) k v h))
      (λ n hn ne. ground (arith, used-free_page p (8 * k) n v h, full n (omega (arith, size))))
      (get_next_free_page-Outcome q (free_page-IsValid p (page_address (8 * k)) v))
  where
    q : Pages
    q = free_page (page_address (8 * k)) p

    size : length q.page_bitmap ≡ length p.page_bitmap
    size = unfold free_page in length-set p.page_bitmap _ _
