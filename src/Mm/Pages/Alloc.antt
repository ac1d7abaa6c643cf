-- ===== src/Mm/Pages/Alloc.antt =====
-- `get_next_free_page` (src/mm/mm.c): which page it hands out, and what becomes of the others.
use pell_os.Base.{
  ℕ, ◌+◌, ◌*◌, ◌≤◌, ◌<◌, ◌≡◌, ◌⊎◌, inl, inr, refl, Option, none, some, List, arith, ◌==◌,
  if◌then◌else◌, Bool-cases, bit_or, get_or, set, length, length-set, get_or-set_self,
  get_or-set_ne, All, All-set, All-get_or, ==_iff,
}
use pell_os.Base.Bits.{shl, bit-bit_or, byte_bounds}
use pell_os.Mm.Pages.{
  Pages, get_next_free_page, scan_bytes, take_page, page_at, page_size, low_memory, mm_num_of_pages,
}
use pell_os.Mm.Pages.Scan.{IsByte, used, Scanned, scan_bytes-Scanned}
use pell_os.Mm.Pages.Zero.{memzero_inside, memzero_outside}

pub record IsValid (p : Pages) : Type 0 where
  pub bytes : All IsByte p.page_bitmap
  pub size : length p.page_bitmap ≤ mm_num_of_pages

abbrev pub page_address : ℕ → ℕ
page_address m = low_memory + page_size * m

abbrev pub IsFull : Pages → Type 0
IsFull p = (m : ℕ) → m < length p.page_bitmap → used p.page_bitmap m ≡ 1

-- Page `m` is the first free one; it is handed out, marked and zeroed, and nothing else changes.
pub record Allocated (p : Pages) (page : ℕ) (p' : Pages) (m : ℕ) : Type 0 where
  pub address : page ≡ page_address m
  pub in_range : m < length p.page_bitmap
  pub free_before : used p.page_bitmap m ≡ 0
  pub first : (n : ℕ) → n < m → used p.page_bitmap n ≡ 1
  pub marked : (n : ℕ) → used p'.page_bitmap n ≡ (if m == n then 1 else used p.page_bitmap n)
  pub zeroed : (k : ℕ) → k < 512 → p'.words (page + 8 * k) ≡ 0
  pub kept : (a : ℕ) → (a < page) ⊎ (page + page_size ≤ a) → p'.words a ≡ p.words a

pub used-mark :
    (bytes : List ℕ) (m n : ℕ)
    → All IsByte bytes
    → m < length bytes
    → used (set bytes m (bit_or (get_or bytes m 0) (shl 1 0))) n
      ≡ (if m == n then 1 else used bytes n)
used-mark bytes m n hb hm = elim (Bool-cases (m == n)) [
  | inl e ↦
      let e' : m ≡ n = (==_iff m n).0 e in
      rw (e, ← e', get_or-set_self bytes m (bit_or (get_or bytes m 0) (shl 1 0)) 0 hm)
        (bit-bit_or (get_or bytes m 0) 0 0 (All-get_or IsByte bytes m 0 hb (omega arith))
          (omega arith) (omega arith))
  | inr e ↦ rw (
    e,
    get_or-set_ne bytes m n (bit_or (get_or bytes m 0) (shl 1 0)) 0
        (λ q. ground (arith, (==_iff m n).1 q)),
  )
]

abbrev pub Outcome : Pages → ℕ × Pages → Type 0
Outcome p (page, p') =
    (IsFull p × (page ≡ 0) × (p' ≡ p)) ⊎ ((m : ℕ) × Allocated p page p' m × IsValid p')

Outcome-take_page :
    (p : Pages) (r : Option (ℕ × ℕ))
    → IsValid p
    → Scanned p.page_bitmap 0 r
    → Outcome p (take_page p r)
unfolding take_page
Outcome-take_page p none v s = inl (s, refl, refl)
Outcome-take_page p (some (k, j)) v s =
    let ek : k ≡ s.0 = omega (arith, s.1) in
    let ej : j ≡ 0 = s.2 in
    rw (ek, ej)
      (inr (
        s.0,
        record {
          address = omega arith;
          in_range = s.3;
          free_before = s.4;
          first = s.5;
          marked = λ n. used-mark p.page_bitmap s.0 n v.bytes s.3;
          zeroed = memzero_inside (page_at s.0 0) p.words;
          kept = memzero_outside (page_at s.0 0) p.words;
        },
        record {
          bytes =
              All-set IsByte p.page_bitmap s.0 _ v.bytes
                (byte_bounds _ 0 (All-get_or IsByte p.page_bitmap s.0 0 v.bytes (omega arith))
                  (omega arith)).0;
          size = omega (arith, length-set p.page_bitmap s.0, v.size);
        },
      ))

-- For a valid bitmap: either all pages are handed out, and the result is 0 with nothing changed; or the first free
-- page is returned, marked and zeroed, the marks of the other pages and all words outside the page
-- are kept, and the bitmap stays valid.
pub get_next_free_page-Outcome : (p : Pages) → IsValid p → Outcome p (get_next_free_page p)
unfolding get_next_free_page
get_next_free_page-Outcome p v =
    Outcome-take_page p (scan_bytes p.page_bitmap 0) v (scan_bytes-Scanned p.page_bitmap 0 v.bytes)
