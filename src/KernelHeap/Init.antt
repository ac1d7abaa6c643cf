-- ===== src/KernelHeap/Init.antt =====
-- `kmalloc_init`, and the ways in which `kfree` leaves the list (src/lib/kmalloc.c).
use pell_os.Base.{
  ℕ, ◌+◌, ◌-◌, ◌*◌, ◌%◌, ◌^◌, ◌≤◌, ◌<◌, ◌≡◌, refl, sym, ◌∙◌, ap, Bool, true, false, ◌||◌, [], ◌∷◌,
  ◌==◌, arith, if◌then◌else◌,
}
use pell_os.Base.Memory.{Memory, read64, read64-write64, read64-write64-Apart}
use pell_os.KernelHeap.{
  KernelHeap, Call, returns, fault, out_of_fuel, start_of_heap, end_of_heap, kernel_heap_size,
  kernel_heap_size_pages, get_prev, get_next, get_size, set_prev, set_next, set_size, zero_words,
  kmalloc_init,
}
use pell_os.KernelHeap.Free.{search_behind, free_at, free_before_first, kfree}
use pell_os.KernelHeap.FreeList.{Block, Ordered, Seg}
use pell_os.KernelHeap.Alloc.{IsFreeList}

ruleset words = (arith, read64-write64, read64-write64-Apart)

header_of_init :
    (a : ℕ) (mem : Memory)
    → a + 24 ≤ end_of_heap
    → let mem' =
        set_size a kernel_heap_size (set_next a end_of_heap (set_prev a start_of_heap mem)) in
      (get_prev mem' a ≡ start_of_heap)
      × (get_size mem' a ≡ kernel_heap_size)
      × (get_next mem' a ≡ end_of_heap)
header_of_init a mem h = (grind words, grind words, grind words)

-- With room for the heap behind its start, the new heap is one free block, the whole of it.
pub kmalloc_init-IsFreeList :
    (a : ℕ) (mem : Memory)
    → 0 < a
    → a + kernel_heap_size ≤ end_of_heap
    → IsFreeList (kmalloc_init a mem) (record { adr = a; size = kernel_heap_size } ∷ [])
unfolding kmalloc_init
kmalloc_init-IsFreeList a mem above below =
    let (prev, size, next) =
      header_of_init a (zero_words (kernel_heap_size_pages * 512) a mem) (omega arith) in
    record {
      start = a;
      last = a;
      first = let e : (a == end_of_heap) ≡ false = ground arith in rw e refl;
      chain = (refl, prev, size, (refl, next));
      ordered = (omega arith, omega arith, below);
    }

module _ (h : KernelHeap) (a size : ℕ) (b : Block) (f : IsFreeList h (b ∷ []))
    (word : read64 h.memory a ≡ size) (room : b.adr + b.size ≤ a)
    (inside : a + (size + 8) ≤ end_of_heap) (large : 16 ≤ size) where
  only_start : f.start ≡ b.adr
  only_start = f.chain.0

  only_first : h.first_free ≡ b.adr
  only_first =
      let e : (f.start == end_of_heap) ≡ false =
        ground (arith, only_start, room, inside, f.ordered.1) in
      f.first ∙ rw e only_start

  only_prev : get_prev h.memory b.adr ≡ start_of_heap
  only_prev = rw (sym only_start) f.chain.1

  only_next : get_next h.memory b.adr ≡ end_of_heap
  only_next = rw (sym only_start) f.chain.3.1

  search_only : (fuel : ℕ) → search_behind fuel (a + 8) h ≡ returns (b.adr, true)
  unfolding search_behind
  search_only fuel = rw (only_first, only_next, only_prev) refl

  abbrev swapped : KernelHeap
  swapped = record {
    first_free = a;
    memory =
        set_prev b.adr a
          (set_size a (size + 8) (set_next a b.adr (set_prev a start_of_heap h.memory)));
  }

  free_only :
      (start taken : ℕ)
      → start ≡ a
      → taken ≡ size + 8
      → free_at start taken h (b.adr, true) ≡ swapped
  unfolding free_at free_before_first
  free_only start taken e e' =
      let first : (get_prev h.memory b.adr == start_of_heap) ≡ true = ground (arith, only_prev) in
      let behind : ((a + (size + 8)) % 2 ^ 64 == b.adr) ≡ false =
        ground (arith, room, inside, f.ordered.1) in
      rw (e, e', first, behind) refl

  kfree-swapped : (fuel : ℕ) → kfree fuel (a + 8) h ≡ returns swapped
  unfolding kfree
  kfree-swapped fuel =
      let some_block : (a + 8 == 0 || h.first_free == 0) ≡ false =
        ground (arith, only_first, f.ordered.0) in
      let start : (a + 8 + 2 ^ 64 - 8) % 2 ^ 64 ≡ a = omega arith in
      let taken : (read64 h.memory a + 8) % 2 ^ 64 ≡ size + 8 = omega (arith, word) in
      ap (λ (t : Bool). if t then returns h else freed (search_behind fuel (a + 8) h)) some_block
      ∙ ap freed (search_only fuel)
      ∙ ap returns (free_only _ _ start (ap (λ p. (read64 h.memory p + 8) % 2 ^ 64) start ∙ taken))
    where
      freed : Call (ℕ × Bool) → Call KernelHeap
      freed r = elim r as (λ r. Call KernelHeap) [
        | returns r ↦ returns (
            free_at ((a + 8 + 2 ^ 64 - 8) % 2 ^ 64)
              ((read64 h.memory ((a + 8 + 2 ^ 64 - 8) % 2 ^ 64) + 8) % 2 ^ 64) h r)
        | fault ↦ fault
        | out_of_fuel ↦ out_of_fuel
      ]

  swapped-Seg :
      Seg swapped.memory start_of_heap a
        (record { adr = a; size = size + 8 } ∷ b ∷ [])
        b.adr
        end_of_heap
  swapped-Seg =
      let low = f.ordered.1 in
      let size_b : get_size h.memory b.adr ≡ b.size = rw (sym only_start) f.chain.2 in
      let link : get_next swapped.memory a ≡ b.adr = grind words in
      (
        refl,
        grind words,
        grind words,
        rw link (refl, grind words, grind (words, size_b), (refl, grind (words, only_next))),
      )

-- On a heap with one free block: freeing an allocated block of at least 16 bytes that lies behind
-- the free one puts it before that block in the list, so that the list is no longer in the order of
-- the addresses.
pub kfree-only_block :
    (fuel : ℕ) (h : KernelHeap) (a size : ℕ) (b : Block)
    → IsFreeList h (b ∷ [])
    → read64 h.memory a ≡ size
    → b.adr + b.size ≤ a
    → a + (size + 8) ≤ end_of_heap
    → 16 ≤ size
    → (h' : KernelHeap) × (kfree fuel (a + 8) h ≡ returns h')
      × Seg h'.memory start_of_heap h'.first_free
          (record { adr = a; size = size + 8 } ∷ b ∷ [])
          b.adr
          end_of_heap
      × (¬ Ordered 1 (record { adr = a; size = size + 8 } ∷ b ∷ []) end_of_heap)
kfree-only_block fuel h a size b f word room inside large = (
  swapped h a size b f word room inside large,
  kfree-swapped h a size b f word room inside large fuel,
  swapped-Seg h a size b f word room inside large,
  λ (_, _, (low, _, _)). omega (arith, f.ordered.1),
)
