-- ===== src/Mm/Pages/ByteMap.antt =====
-- The variant of src/mm/mm.c without `USE_BITMAP`, one byte for each page, and how the bitmap
-- variant compares with it.
use pell_os.Base.{
  ℕ, zero, suc, ◌+◌, ◌-◌, ◌*◌, ◌/◌, ◌%◌, ◌^◌, ◌<◌, ◌≡◌, ◌≢◌, refl, ap, ◌⊎◌, inl, inr, ◌∙◌, sym, All,
  ◌≤◌, Option, none, some, List, [], ◌∷◌, arith, ◌==◌, if◌then◌else◌, get_or, set, length,
  length-set, get_or-set,
}
use mathlib.Core.Path.{ap₂}
use pell_os.Mm.Pages.{
  Pages, low_memory, mm_available_page_min, mm_num_of_pages, page_size, memzero, page_at, take_page,
  get_next_free_page as bitmap_next_free_page, scan_bytes,
}
use pell_os.Mm.Pages.Scan.{IsByte, used, Scanned, scan_bytes-Scanned}
use pell_os.Mm.Pages.Alloc.{IsValid, used-mark}

pub record ByteMap : Type 0 where
  pub kernel_memmap : List ℕ
  pub words : ℕ → ℕ

-- The loop of `get_next_free_page`: the first page from `i` on whose byte is 0.
pub scan_map : List ℕ → ℕ → Option ℕ
scan_map [] i = none
scan_map (b ∷ bs) i = let rest = scan_map bs (i + 1) in if b == 0 then some i else rest

pub take_entry : ByteMap → Option ℕ → ℕ × ByteMap
take_entry p none = (0, p)
take_entry p (some i) = (
  low_memory + i * page_size,
  record p {
    kernel_memmap = set p.kernel_memmap i 1;
    words = memzero (low_memory + i * page_size) page_size p.words;
  },
)

unfoldable pub get_next_free_page : ByteMap → ℕ × ByteMap
unfolding scan_map take_entry
get_next_free_page p = take_entry p (scan_map p.kernel_memmap 0)

unfoldable pub free_page : ℕ → ByteMap → ByteMap
free_page ptr p = record p {
  kernel_memmap =
      set p.kernel_memmap ((ptr + 2 ^ 64 - mm_available_page_min) % 2 ^ 64 / page_size) 0;
}

-- The two variants mark the same pages, and their memories agree.
pub record Simulates (p : Pages) (q : ByteMap) : Type 0 where
  pub size : length p.page_bitmap ≡ length q.kernel_memmap
  pub marks : (m : ℕ) → used p.page_bitmap m ≡ get_or q.kernel_memmap m 0
  pub words : p.words ≡ q.words

scan_map-some :
    (bs : List ℕ) (i m : ℕ)
    → m < length bs
    → get_or bs m 0 ≡ 0
    → ((n : ℕ) → n < m → get_or bs n 0 ≡ 1)
    → scan_map bs i ≡ some (i + m)
unfolding scan_map
scan_map-some [] i m h z before = absurd (omega arith)
scan_map-some (b ∷ bs) i zero h z before = ground arith
scan_map-some (b ∷ bs) i (suc m) h z before = ground (
  arith,
  before 0 (omega arith),
  scan_map-some bs (i + 1) m (omega arith) z (λ n hn. before (suc n) (omega arith)),
)

scan_map-none :
    (bs : List ℕ) (i : ℕ) → ((n : ℕ) → n < length bs → get_or bs n 0 ≡ 1) → scan_map bs i ≡ none
unfolding scan_map
scan_map-none [] i all = refl
scan_map-none (b ∷ bs) i all =
    ground
      (arith, all 0 (omega arith), scan_map-none bs (i + 1) (λ n hn. all (suc n) (omega arith)))

-- What the simulation says of the results of the two allocations.
abbrev pub SameResult : ℕ × Pages → ℕ × ByteMap → Type 0
SameResult (page, p) (page', q) = (page ≡ page') × Simulates p q

SameResult-take :
    (p : Pages) (q : ByteMap) (r : Option (ℕ × ℕ))
    → All IsByte p.page_bitmap
    → Simulates p q
    → Scanned p.page_bitmap 0 r
    → SameResult (take_page p r) (get_next_free_page q)
unfolding take_page take_entry get_next_free_page
SameResult-take p q none bytes s full =
    rw
      (scan_map-none q.kernel_memmap 0
        (λ n hn. omega (arith, s.marks n, full n (omega (arith, s.size)))))
      (refl, s)
SameResult-take p q (some (k, j)) bytes s (m, ek, ej, lt, free, before) =
    let e : k ≡ m = omega arith in
    let zero_m : 0 + m ≡ m = omega arith in
    rw
      (
        e,
        ej,
        scan_map-some q.kernel_memmap 0 m (omega (arith, s.size)) (omega (arith, s.marks m))
            (λ n hn. omega (arith, s.marks n, before n hn)),
        zero_m,
      )
      (
        omega arith,
        record {
          size = omega (arith, s.size, length-set p.page_bitmap m, length-set q.kernel_memmap m);
          marks = λ n.
              used-mark p.page_bitmap m n bytes lt
              ∙ rw (s.marks n) (sym (get_or-set q.kernel_memmap m n 1 0 (omega (arith, s.size))));
          words =
              let ea : page_at m 0 ≡ low_memory + m * page_size = omega arith in
              ap₂ (λ a w. memzero a page_size w) ea s.words;
        },
      )

-- From a valid bitmap and a byte map that mark the same pages, over the same memory, the two
-- variants return the same page, and are left with the same marks and memory.
pub get_next_free_page-Simulates :
    (p : Pages) (q : ByteMap)
    → IsValid p
    → Simulates p q
    → SameResult (bitmap_next_free_page p) (get_next_free_page q)
unfolding bitmap_next_free_page
get_next_free_page-Simulates p q v s =
    SameResult-take p q (scan_bytes p.page_bitmap 0) v.bytes s
      (scan_bytes-Scanned p.page_bitmap 0 v.bytes)

scan_map-cases :
    (bs : List ℕ) (i : ℕ)
    → (scan_map bs i ≡ none)
      ⊎ ((m : ℕ) × (scan_map bs i ≡ some (i + m))
          × (m < length bs)
          × (get_or bs m 0 ≡ 0)
          × ((v : ℕ) → set (set bs m v) m 0 ≡ bs))
unfolding scan_map
scan_map-cases [] i = inl refl
scan_map-cases (zero ∷ bs) i = inr (0, ap some (omega arith), omega arith, refl, λ v. refl)
scan_map-cases (suc b ∷ bs) i = elim (scan_map-cases bs (i + 1)) [
  | inl e ↦ inl (ground (arith, e))
  | inr (m, e, lt, z, back) ↦
      inr (suc m, ground (arith, e), omega arith, z, λ v. ap (λ l. suc b ∷ l) (back v))
]

-- In the variant without the bitmap, with a map of at most the source's number of entries, freeing
-- the page just handed out restores the map.
pub free_page-get_next_free_page :
    (q : ByteMap)
    → length q.kernel_memmap ≤ mm_num_of_pages
    → (get_next_free_page q).0 ≢ 0
    → (free_page (get_next_free_page q).0 (get_next_free_page q).1).kernel_memmap ≡ q.kernel_memmap
unfolding get_next_free_page take_entry free_page
free_page-get_next_free_page q size found = elim (scan_map-cases q.kernel_memmap 0) [
  | inl e ↦ absurd (found (ap (λ r. (take_entry q r).0) e))
  | inr (m, e, lt, z, back) ↦
      let index : (low_memory + (0 + m) * page_size + 2 ^ 64 - mm_available_page_min)
            % 2 ^ 64
            / page_size
          ≡ m =
        omega arith in
      let zero_m : 0 + m ≡ m = omega arith in rw (e, index, zero_m) (back 1)
]
