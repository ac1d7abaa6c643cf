-- ===== src/Mm/Pages/Tests.antt =====
-- The page allocator (src/mm/mm.c) at small bitmaps.
use pell_os.Base.{
  ℕ, zero, suc, ◌≡◌, refl, [], ◌∷◌, arith, replicate, All-get_or_lt, get_or, ◌%◌, ◌/◌,
}
use pell_os.Mm.Pages.{Pages, get_next_free_page, free_page}
use pell_os.Mm.Pages.Scan.{used}
use pell_os.Mm.Pages.Alloc.{IsValid, IsFull, Outcome, page_address, get_next_free_page-Outcome}
use pell_os.Mm.Pages.Free.{free_page-wrong_page}
use pell_os.Mm.Pages.ByteMap.{
  ByteMap, Simulates, SameResult, get_next_free_page-Simulates, free_page-get_next_free_page,
}
use pell_os.Mm.Pages.ByteMap

-- The first page is handed out, the second and the third are free.
abbrev some_pages : Pages
some_pages = record { page_bitmap = 1 ∷ 0 ∷ 0 ∷ []; words = λ a. 7 }

abbrev some_map : ByteMap
some_map = record { kernel_memmap = 1 ∷ 0 ∷ 0 ∷ []; words = λ a. 7 }

-- Ten pages, all handed out.
abbrev full_pages : Pages
full_pages = record { page_bitmap = replicate 10 1; words = λ a. 0 }

second_page : (get_next_free_page some_pages).0 ≡ 0x40_1000
unfolding get_next_free_page
second_page = refl

some_pages-IsValid : IsValid some_pages
some_pages-IsValid = omega arith

full_pages-IsValid : IsValid full_pages
full_pages-IsValid = omega arith

full_pages-IsFull : IsFull full_pages
full_pages-IsFull m h =
    All-get_or_lt (λ b. b / 1 % 2 ≡ 1) full_pages.page_bitmap m 0 (omega arith) h

some_pages-Simulates : Simulates some_pages some_map
some_pages-Simulates = record { size = refl; marks = marks; words = refl }
  where
    marks : (m : ℕ) → used some_pages.page_bitmap m ≡ get_or some_map.kernel_memmap m 0
    marks zero = refl
    marks (suc zero) = refl
    marks (suc (suc zero)) = refl
    marks (suc (suc (suc m))) = refl

get_next_free_page-Outcome_example : Outcome some_pages (get_next_free_page some_pages)
get_next_free_page-Outcome_example = get_next_free_page-Outcome some_pages some_pages-IsValid

get_next_free_page-Simulates_example :
    SameResult (get_next_free_page some_pages) (ByteMap.get_next_free_page some_map)
get_next_free_page-Simulates_example =
    get_next_free_page-Simulates some_pages some_map some_pages-IsValid some_pages-Simulates

free_page-get_next_free_page_example :
    (ByteMap.free_page
      (ByteMap.get_next_free_page some_map).0
      (ByteMap.get_next_free_page some_map).1).kernel_memmap
    ≡ some_map.kernel_memmap
unfolding ByteMap.get_next_free_page
free_page-get_next_free_page_example =
    free_page-get_next_free_page some_map (omega arith) (omega arith)

-- Page 8 is freed, and page 1 is handed out a second time.
free_page-wrong_page_example :
    (get_next_free_page (free_page (page_address 8) full_pages)).0 ≡ page_address 1
free_page-wrong_page_example =
    free_page-wrong_page full_pages 1 full_pages-IsValid full_pages-IsFull (omega arith)
