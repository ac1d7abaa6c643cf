-- ===== src/Boot/Heap.antt =====
-- The heap that `main` (src/kernel.c) makes: its 64 pages are next to each other, and stay its own.
use pell_os.Base.{
  ℕ, zero, suc, ◌+◌, ◌-◌, ◌<◌, ◌≤◌, ◌≡◌, ◌⊎◌, inl, inr, refl, ap, ◌∙◌, arith, [], ◌∷◌, length,
}
use mathlib.Core.Path.{subst}
use pell_os.Base.Memory.{Memory}
use pell_os.Mm.Pages.{Pages, low_memory, get_next_free_page, scan_bytes}
use pell_os.Mm.Pages.Scan.{used}
use pell_os.Mm.Pages.Alloc.{IsValid, page_address, get_next_free_page-Outcome}
use pell_os.Mm.Pages.Count.{length-take_page}
use pell_os.Mm.Paging.{virtual_address_start}
use pell_os.KernelHeap.{kernel_heap_size, kernel_heap_size_pages, kmalloc_init}
use pell_os.KernelHeap.Alloc.{IsFreeList}
use pell_os.KernelHeap.Init.{kmalloc_init-IsFreeList}
use pell_os.Boot.{take_pages, start_heap}

-- Of the pages below `limit`, those below `i` are handed out.
pub record TakenBelow (i limit : ℕ) (p : Pages) : Type 0 where
  pub valid : IsValid p
  pub size : limit ≤ length p.page_bitmap
  pub taken : (n : ℕ) → n < i → used p.page_bitmap n ≡ 1
  pub free : (n : ℕ) → i ≤ n → n < limit → used p.page_bitmap n ≡ 0

-- The next page is the next one in memory.
take_next :
    (i limit : ℕ) (p : Pages)
    → TakenBelow i limit p
    → i < limit
    → ((get_next_free_page p).0 ≡ page_address i)
      × TakenBelow (suc i) limit (get_next_free_page p).1
      × ((n : ℕ) → limit ≤ n → used (get_next_free_page p).1.page_bitmap n ≡ used p.page_bitmap n)
take_next i limit p t lt = elim (get_next_free_page-Outcome p t.valid) [
  | inl (full, e, e') ↦
      absurd (omega (arith, full i (omega (arith, t.size)), t.free i (omega arith) lt))
  | inr (m, a, v') ↦
      let number : m ≡ i = ground (arith, a.first i, t.free i, a.free_before, t.taken m) in
      let size : length (get_next_free_page p).1.page_bitmap ≡ length p.page_bitmap =
        unfold get_next_free_page in length-take_page p (scan_bytes p.page_bitmap 0) in
      (
        a.address ∙ ap page_address number,
        record {
          valid = v';
          size = omega (arith, size, t.size);
          taken = λ n below. ground (arith, a.marked n, number, t.taken n);
          free = λ n above below. ground (arith, a.marked n, number, t.free n);
        },
        λ n above. ground (arith, a.marked n, number),
      )
]

take_pages-TakenBelow :
    (n i limit : ℕ) (p : Pages)
    → TakenBelow i limit p
    → i + n ≤ limit
    → TakenBelow (i + n) limit (take_pages n p)
      × ((m : ℕ) → limit ≤ m → used (take_pages n p).page_bitmap m ≡ used p.page_bitmap m)
unfolding take_pages
take_pages-TakenBelow zero i limit p t room =
    let e : i ≡ i + 0 = omega arith in (subst (λ j. TakenBelow j limit p) e t, λ m above. refl)
take_pages-TakenBelow (suc n) i limit p t room =
    let (e, t', kept) = take_next i limit p t (omega (arith, room)) in
    let (rest, kept') =
      take_pages-TakenBelow n (suc i) limit (get_next_free_page p).1 t' (omega (arith, room)) in
    let number : suc i + n ≡ i + suc n = omega arith in
    (
      subst (λ j. TakenBelow j limit (take_pages n (get_next_free_page p).1)) number rest,
      λ m above. kept' m above ∙ kept m above,
    )

-- The next page.
abbrev pub page_after : Memory → Pages → ℕ
page_after mem p = (get_next_free_page (start_heap mem p).1).0

later :
    (p : Pages)
    → TakenBelow kernel_heap_size_pages kernel_heap_size_pages p
    → ((get_next_free_page p).0 ≡ 0) ⊎ (low_memory + kernel_heap_size ≤ (get_next_free_page p).0)
later p t = elim (get_next_free_page-Outcome p t.valid) [
  | inl (full, e, e') ↦ inl e
  | inr (m, a, v') ↦ inr (ground (arith, a.address, a.free_before, t.taken m))
]

-- With the first 64 pages free, the heap starts at the first page, and is one free block of the size
-- of 64 pages. These pages are handed out then and no other is, and the next page, if there is one,
-- lies behind the heap.
pub start_heap-Apart :
    (mem : Memory) (p : Pages)
    → TakenBelow 0 kernel_heap_size_pages p
    → IsFreeList
        (start_heap mem p).0
        (record { adr = low_memory + virtual_address_start; size = kernel_heap_size } ∷ [])
      × TakenBelow kernel_heap_size_pages kernel_heap_size_pages (start_heap mem p).1
      × ((m : ℕ)
          → kernel_heap_size_pages ≤ m
          → used (start_heap mem p).1.page_bitmap m ≡ used p.page_bitmap m)
      × ((page_after mem p ≡ 0) ⊎ (low_memory + kernel_heap_size ≤ page_after mem p))
unfolding start_heap
start_heap-Apart mem p t =
    let (first, t', kept) = take_next 0 kernel_heap_size_pages p t (omega arith) in
    let (all, kept') =
      take_pages-TakenBelow (kernel_heap_size_pages - 1) 1 kernel_heap_size_pages
        (get_next_free_page p).1 t' (omega arith) in
    let heap_ptr = (get_next_free_page p).0 + virtual_address_start in
    let start : heap_ptr ≡ low_memory + virtual_address_start = omega (arith, first) in
    (
      subst
          (λ a.
            IsFreeList (kmalloc_init heap_ptr mem)
              (record { adr = a; size = kernel_heap_size } ∷ []))
          start (kmalloc_init-IsFreeList heap_ptr mem (omega arith) (omega (arith, start))),
      all,
      λ m above. kept' m above ∙ kept m above,
      later (start_heap mem p).1 (unfold start_heap in all),
    )
