-- ===== src/Mm/Pages/Count.antt =====
-- How many pages are free (src/mm/mm.c), and what handing one out does to that.
use pell_os.Base.{
  ℕ, zero, suc, ◌+◌, ◌-◌, ◌<◌, ◌≡◌, inl, inr, refl, ap, arith, Option, none, some, List, ◌==◌, ltb,
  ==_iff, if◌then◌else◌, length, length-set,
}
use pell_os.Mm.Pages.{Pages, get_next_free_page, take_page, scan_bytes}
use pell_os.Mm.Pages.Scan.{used}
use pell_os.Mm.Pages.Alloc.{IsValid, Allocated, get_next_free_page-Outcome}

-- The free ones of the first `n` pages.
pub free_below : ℕ → List ℕ → ℕ
free_below zero bytes = 0
free_below (suc n) bytes = free_below n bytes + (1 - used bytes n)

unfoldable pub free_pages : Pages → ℕ
unfolding free_below
free_pages p = free_below (length p.page_bitmap) p.page_bitmap

free_below-none :
    (n : ℕ) (bytes : List ℕ) → ((m : ℕ) → m < n → used bytes m ≡ 1) → free_below n bytes ≡ 0
unfolding free_below
free_below-none zero bytes all = refl
free_below-none (suc n) bytes all =
    omega (arith, all n (omega arith), free_below-none n bytes (λ m lt. all m (omega arith)))

free_below-mark :
    (n m : ℕ) (bytes bytes' : List ℕ)
    → used bytes m ≡ 0
    → ((k : ℕ) → used bytes' k ≡ (if m == k then 1 else used bytes k))
    → free_below n bytes ≡ free_below n bytes' + (if ltb m n then 1 else 0)
unfolding free_below
free_below-mark zero m bytes bytes' u marked = ground arith
free_below-mark (suc n) m bytes bytes' u marked =
    ground (
      arith,
      free_below-mark n m bytes bytes' u marked,
      marked n,
      ==_iff m n,
      ap (λ k. used bytes k),
    )

pub length-take_page :
    (p : Pages) (r : Option (ℕ × ℕ)) → length (take_page p r).1.page_bitmap ≡ length p.page_bitmap
unfolding take_page
length-take_page p none = refl
length-take_page p (some (i, j)) = length-set p.page_bitmap i _

-- While a page is free, one is handed out, and there is one less.
pub get_next_free_page-counts :
    (p : Pages)
    → IsValid p
    → 0 < free_pages p
    → (m : ℕ) × Allocated p (get_next_free_page p).0 (get_next_free_page p).1 m
      × IsValid (get_next_free_page p).1
      × (free_pages p ≡ free_pages (get_next_free_page p).1 + 1)
unfolding free_pages
get_next_free_page-counts p v some_free = elim (get_next_free_page-Outcome p v) [
  | inl (full, e, e') ↦
      absurd (omega (arith, free_below-none (length p.page_bitmap) p.page_bitmap full))
  | inr (m, a, v') ↦
      let size : length (get_next_free_page p).1.page_bitmap ≡ length p.page_bitmap =
        unfold get_next_free_page in length-take_page p (scan_bytes p.page_bitmap 0) in
      let count =
        free_below-mark (length p.page_bitmap) m p.page_bitmap (get_next_free_page p).1.page_bitmap
          a.free_before a.marked in
      (m, a, v', rw size (ground (arith, count, a.in_range)))
]
