-- ===== src/Boot/Tests.antt =====
-- The heap (src/kernel.c) on a machine of 70 pages.
use pell_os.Base.{ℕ, ◌+◌, ◌≤◌, ◌≡◌, ◌⊎◌, arith, replicate, [], ◌∷◌}
use pell_os.Base.{get_or-replicate}
use pell_os.Base.Memory.{Memory}
use pell_os.Mm.Pages.{Pages, low_memory}
use pell_os.Mm.Pages.Scan.{used}
use pell_os.Mm.Pages.Alloc.{IsValid}
use pell_os.Mm.Paging.{virtual_address_start}
use pell_os.KernelHeap.{kernel_heap_size, kernel_heap_size_pages}
use pell_os.KernelHeap.Alloc.{IsFreeList}
use pell_os.Boot.{start_heap}
use pell_os.Boot.Heap.{TakenBelow, start_heap-Apart, page_after}

abbrev boot_pages : Pages
boot_pages = record { page_bitmap = replicate 70 0; words = λ a. 0 }

abbrev boot_memory : Memory
boot_memory a = 3

boot_pages-IsValid : IsValid boot_pages
boot_pages-IsValid = omega arith

boot_pages-TakenBelow : TakenBelow 0 kernel_heap_size_pages boot_pages
boot_pages-TakenBelow = record {
  valid = boot_pages-IsValid;
  size = omega arith;
  taken = λ n below. absurd (omega arith);
  free = λ n above below. omega (arith, get_or-replicate {A = ℕ} 70 n 0);
}

start_heap-Apart_example :
    IsFreeList
      (start_heap boot_memory boot_pages).0
      (record { adr = low_memory + virtual_address_start; size = kernel_heap_size } ∷ [])
    × TakenBelow kernel_heap_size_pages kernel_heap_size_pages (start_heap boot_memory boot_pages).1
    × ((m : ℕ)
        → kernel_heap_size_pages ≤ m
        → used (start_heap boot_memory boot_pages).1.page_bitmap m ≡ used boot_pages.page_bitmap m)
    × ((page_after boot_memory boot_pages ≡ 0)
        ⊎ (low_memory + kernel_heap_size ≤ page_after boot_memory boot_pages))
start_heap-Apart_example = start_heap-Apart boot_memory boot_pages boot_pages-TakenBelow
