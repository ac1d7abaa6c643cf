-- ===== src/KernelHeap.antt =====
-- The kernel heap (src/lib/kmalloc.c, include/lib/kmalloc.h): a list of free blocks, each with its
-- header at its start, linked in both directions.
pub mod Free
pub mod FreeList
pub mod Links
pub mod FirstFit
pub mod Alloc
pub mod Malloc
pub mod Merge
pub mod Init
mod Tests
use pell_os.Base.{
  ℕ, zero, suc, ◌+◌, ◌-◌, ◌*◌, ◌%◌, ◌^◌, Bool, true, false, not, ◌&&◌, ◌||◌, ◌==◌, leb, ltb,
  if◌then◌else◌,
}
use pell_os.Base.Memory.{Memory, read64, write64}
use pell_os.Mm.Pages.{page_size}

abbrev pub start_of_heap : ℕ
start_of_heap = 0

abbrev pub end_of_heap : ℕ
end_of_heap = 2 ^ 64 - 1

abbrev pub kernel_heap_size_pages : ℕ
kernel_heap_size_pages = 64

abbrev pub kernel_heap_size : ℕ
kernel_heap_size = kernel_heap_size_pages * page_size

abbrev pub malloc_header_size : ℕ
malloc_header_size = 8

-- `free_mem_header_t`
pub record FreeHeader : Type 0 where
  pub prev : ℕ
  pub next : ℕ
  pub size : ℕ

-- `first_free`, and the memory in which the heap lies.
pub record KernelHeap : Type 0 where
  pub first_free : ℕ
  pub memory : Memory

-- The fields of the header at `a`.
abbrev pub get_prev : Memory → ℕ → ℕ
get_prev mem a = read64 mem a

abbrev pub get_next : Memory → ℕ → ℕ
get_next mem a = read64 mem (a + 8)

abbrev pub get_size : Memory → ℕ → ℕ
get_size mem a = read64 mem (a + 16)

abbrev pub set_prev : ℕ → ℕ → Memory → Memory
set_prev a v mem = write64 a v mem

abbrev pub set_next : ℕ → ℕ → Memory → Memory
set_next a v mem = write64 (a + 8) v mem

abbrev pub set_size : ℕ → ℕ → Memory → Memory
set_size a v mem = write64 (a + 16) v mem

abbrev pub get_header : Memory → ℕ → FreeHeader
get_header mem a = record { prev = get_prev mem a; next = get_next mem a; size = get_size mem a }

abbrev pub set_header : ℕ → FreeHeader → Memory → Memory
set_header a b mem = set_size a b.size (set_next a b.next (set_prev a b.prev mem))

-- `memzero` of `8 * n` bytes.
pub zero_words : ℕ → ℕ → Memory → Memory
zero_words zero a mem = mem
zero_words (suc n) a mem = zero_words n (a + 8) (write64 a 0 mem)

unfoldable pub kmalloc_init : ℕ → Memory → KernelHeap
unfolding zero_words
kmalloc_init heap_start mem =
    let mem₀ = zero_words (kernel_heap_size_pages * 512) heap_start mem in
    record {
      first_free = heap_start;
      memory =
          set_size heap_start kernel_heap_size
            (set_next heap_start end_of_heap (set_prev heap_start start_of_heap mem₀));
    }

-- A call returns, or follows one of the two pointers that name no memory, or has used up its fuel.
pub data Call {ℓ} (A : Type ℓ) : Type ℓ where
  returns : A → Call A
  fault : Call A
  out_of_fuel : Call A

-- The four cases of `kmalloc` for the block with header `b`, in the order of the code: what is left
-- of it, if anything, becomes a free block at `rest`.
unfoldable pub take_only : (b : FreeHeader) → (rest alloc_size : ℕ) → KernelHeap → KernelHeap
take_only b rest alloc_size h =
    if b.size - alloc_size == 0 then record h { first_free = 0 } else record {
      first_free = rest;
      memory =
          set_size rest (b.size - alloc_size)
            (set_next rest end_of_heap (set_prev rest start_of_heap h.memory));
    }

unfoldable pub take_first : (b : FreeHeader) → (rest alloc_size : ℕ) → KernelHeap → KernelHeap
take_first b rest alloc_size h =
    if b.size - alloc_size == 0
    then record { first_free = b.next; memory = set_prev b.next start_of_heap h.memory }
    else (let mem₁ = set_next rest b.next h.memory in
        let mem₂ = set_prev (get_next mem₁ rest) rest mem₁ in
        let mem₃ = set_size rest (b.size - alloc_size) mem₂ in
        record { first_free = rest; memory = set_prev rest start_of_heap mem₃ })

unfoldable pub take_last : (b : FreeHeader) → (rest alloc_size : ℕ) → KernelHeap → KernelHeap
take_last b rest alloc_size h =
    if b.size - alloc_size == 0
    then record h { memory = set_next b.prev end_of_heap h.memory }
    else (let mem₁ = set_prev rest b.prev h.memory in
        let mem₂ = set_next (get_prev mem₁ rest) rest mem₁ in
        let mem₃ = set_size rest (b.size - alloc_size) mem₂ in
        record h { memory = set_next rest end_of_heap mem₃ })

unfoldable pub take_middle : (b : FreeHeader) → (rest alloc_size : ℕ) → KernelHeap → KernelHeap
take_middle b rest alloc_size h =
    if b.size - alloc_size == 0
    then record h { memory = set_prev b.next b.prev (set_next b.prev b.next h.memory) }
    else (let mem₁ = set_prev rest b.prev h.memory in
        let mem₂ = set_next (get_prev mem₁ rest) rest mem₁ in
        let mem₃ = set_next rest b.next mem₂ in
        let mem₄ = set_prev (get_next mem₃ rest) rest mem₃ in
        record h { memory = set_size rest (b.size - alloc_size) mem₄ })

unfoldable pub take_block : (b : FreeHeader) → (rest alloc_size : ℕ) → KernelHeap → KernelHeap
unfolding take_only take_first take_last take_middle
take_block b rest alloc_size h =
    if b.prev == start_of_heap && b.next == end_of_heap
    then take_only b rest alloc_size h
    else if b.prev == start_of_heap
    then take_first b rest alloc_size h
    else if b.next == end_of_heap
    then take_last b rest alloc_size h
    else take_middle b rest alloc_size h

-- What `kmalloc` does with the block at `a` that it found: the pointer that it returns, and the heap.
unfoldable pub allocate_at : (a size : ℕ) → KernelHeap → ℕ × KernelHeap
unfolding take_block
allocate_at a size h =
    let alloc_size = (size + malloc_header_size) % 2 ^ 64 in
    let h' = take_block (get_header h.memory a) ((a + alloc_size) % 2 ^ 64) alloc_size h in
    ((a + 8) % 2 ^ 64, record h' { memory = write64 a size h'.memory })

abbrev pub names_memory : ℕ → Bool
names_memory a = not (a == start_of_heap) && not (a == end_of_heap)

-- The loop of `kmalloc`, from the block at `a` on.
unfoldable pub find_block : (fuel a size : ℕ) → KernelHeap → Call (ℕ × KernelHeap)
unfolding allocate_at
find_block zero a size h = out_of_fuel
find_block (suc fuel) a size h =
    let next = get_next h.memory a in
    let rest = find_block fuel next size h in
    if names_memory a
    then (if leb ((size + malloc_header_size) % 2 ^ 64) (get_size h.memory a)
        then returns (allocate_at a size h)
        else if not (next == end_of_heap) || not (next == start_of_heap)
        then rest
        else returns (0, h))
    else fault

unfoldable pub kmalloc : (fuel size : ℕ) → KernelHeap → Call (ℕ × KernelHeap)
unfolding find_block
kmalloc fuel size h =
    if h.first_free == 0 then returns (0, h) else find_block fuel h.first_free size h
