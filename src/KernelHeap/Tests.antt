-- ===== src/KernelHeap/Tests.antt =====
-- The kernel heap (src/lib/kmalloc.c) with one and with two free blocks.
use pell_os.Base.{ℕ, ◌+◌, ◌^◌, ◌<◌, ◌≡◌, inl, inr, refl, some, [], ◌∷◌, arith}
use pell_os.Base.Memory.{Memory, read64, write64}
use pell_os.KernelHeap.{
  KernelHeap, returns, end_of_heap, kernel_heap_size, set_header, kmalloc_init, kmalloc,
}
use pell_os.KernelHeap.Free.{kfree}
use pell_os.KernelHeap.FreeList.{Block, Ordered, Seg}
use pell_os.KernelHeap.FirstFit.{take_fit}
use pell_os.KernelHeap.Alloc.{IsFreeList}
use pell_os.KernelHeap.Malloc.{NoSliver, Allocation, kmalloc-take_fit}
use pell_os.KernelHeap.Merge.{kfree-merges, kfree-kmalloc}
use pell_os.KernelHeap.Init.{kmalloc_init-IsFreeList, kfree-only_block}

-- An allocated block at 100, and free blocks of 40 bytes at 200 and of 100 bytes at 300.
abbrev two_memory : Memory
two_memory = write64 100 92 (
    set_header 300 (record { prev = 200; next = end_of_heap; size = 100 })
      (set_header 200 (record { prev = 0; next = 300; size = 40 }) (λ a. 0)))

abbrev two_heap : KernelHeap
two_heap = record { first_free = 200; memory = two_memory }

abbrev block_200 : Block
block_200 = record { adr = 200; size = 40 }

abbrev block_300 : Block
block_300 = record { adr = 300; size = 100 }

two_heap-IsFreeList : IsFreeList two_heap (block_200 ∷ block_300 ∷ [])
unfolding read64 write64
two_heap-IsFreeList = record {
  start = 200;
  last = 300;
  first = refl;
  chain = (refl, refl, refl, (refl, refl, refl, (refl, refl)));
  ordered = omega arith;
}

-- A free block of 40 bytes at 200, and an allocated one behind it.
abbrev one_heap : KernelHeap
one_heap = record {
  first_free = 200;
  memory =
      write64 240 16 (set_header 200 (record { prev = 0; next = end_of_heap; size = 40 }) (λ a. 0));
}

one_heap-IsFreeList : IsFreeList one_heap (block_200 ∷ [])
unfolding read64 write64
one_heap-IsFreeList = record {
  start = 200;
  last = 200;
  first = refl;
  chain = (refl, refl, refl, (refl, refl));
  ordered = omega arith;
}

kmalloc_init-IsFreeList_example :
    IsFreeList
      (kmalloc_init 0x40_0000 (λ a. 7))
      (record { adr = 0x40_0000; size = kernel_heap_size } ∷ [])
kmalloc_init-IsFreeList_example =
    kmalloc_init-IsFreeList 0x40_0000 (λ a. 7) (omega arith) (omega arith)

small_request : 50 + 8 < 2 ^ 64
small_request = omega arith

two_heap-NoSliver : NoSliver 58 (block_200 ∷ block_300 ∷ [])
two_heap-NoSliver = (inl (omega arith), (inr (inr (omega arith)), tt))

-- The request passes over the first block.
kmalloc-take_fit_example :
    Allocation 3 50 two_heap small_request
      (block_200 ∷ block_300 ∷ [])
      (some (300, block_200 ∷ record { adr = 358; size = 42 } ∷ []))
unfolding take_fit
kmalloc-take_fit_example =
    kmalloc-take_fit 3 50 two_heap (block_200 ∷ block_300 ∷ []) small_request two_heap-IsFreeList
      two_heap-NoSliver (omega arith)

kfree-merges_example :
    (h' : KernelHeap) × (kfree 1 108 two_heap ≡ returns h')
    × IsFreeList h' (record { adr = 100; size = 140 } ∷ block_300 ∷ [])
unfolding read64 write64
kfree-merges_example =
    kfree-merges 0 two_heap 100 92 block_200 (block_300 ∷ []) two_heap-IsFreeList refl (omega arith)
      (omega arith) (omega arith)

kfree-kmalloc_example :
    (ptr : ℕ) × (h' : KernelHeap) × (h'' : KernelHeap) × (kmalloc 3 8 two_heap ≡ returns (ptr, h'))
    × (kfree 1 ptr h' ≡ returns h'')
    × IsFreeList h'' (block_200 ∷ block_300 ∷ [])
kfree-kmalloc_example =
    kfree-kmalloc 3 0 8 two_heap block_200 (block_300 ∷ []) (omega arith) two_heap-IsFreeList
      (inr (inr (omega arith)), (inr (inr (omega arith)), tt)) (omega arith) (omega arith)
      (omega arith)

kfree-only_block_example :
    (h' : KernelHeap) × (kfree 0 248 one_heap ≡ returns h')
    × Seg h'.memory 0 h'.first_free
        (record { adr = 240; size = 24 } ∷ block_200 ∷ [])
        200
        end_of_heap
    × (¬ Ordered 1 (record { adr = 240; size = 24 } ∷ block_200 ∷ []) end_of_heap)
unfolding read64 write64
kfree-only_block_example =
    kfree-only_block 0 one_heap 240 16 block_200 one_heap-IsFreeList refl (omega arith)
      (omega arith) (omega arith)
