-- ===== src/Boot.antt =====
-- The kernel heap's pages at start-up (`main` of src/kernel.c).
pub mod Heap
mod Tests
use pell_os.Base.{ℕ, zero, suc, ◌+◌, ◌-◌}
use pell_os.Base.Memory.{Memory}
use pell_os.Mm.Pages.{Pages, get_next_free_page}
use pell_os.Mm.Paging.{virtual_address_start}
use pell_os.KernelHeap.{KernelHeap, kernel_heap_size_pages, kmalloc_init}

-- The loop that takes the other pages: `n` calls whose results are not used.
unfoldable pub take_pages : ℕ → Pages → Pages
unfolding get_next_free_page
take_pages zero p = p
take_pages (suc n) p = take_pages n (get_next_free_page p).1

-- The heap, in the memory `mem` of bytes, and the pages after.
unfoldable pub start_heap : Memory → Pages → KernelHeap × Pages
unfolding get_next_free_page take_pages kmalloc_init
start_heap mem p =
    let (kernel_heap_phys, p₁) = get_next_free_page p in
    let heap_ptr = kernel_heap_phys + virtual_address_start in
    (kmalloc_init heap_ptr mem, take_pages (kernel_heap_size_pages - 1) p₁)
