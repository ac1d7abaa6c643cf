-- ===== src/KernelHeap/Malloc.antt =====
-- The whole of `kmalloc` (src/lib/kmalloc.c).
use mathlib.Core.Path.{subst}
use pell_os.Base.{
  ℕ, ◌+◌, ◌^◌, ◌≤◌, ◌<◌, ◌≡◌, ◌⊎◌, inl, inr, refl, ◌∙◌, ap, false, Option, none, some, List, [],
  ◌∷◌, ◌++◌, ◌==◌, All, length, arith, if◌then◌else◌,
}
use pell_os.KernelHeap.{
  KernelHeap, returns, fault, start_of_heap, end_of_heap, get_prev, get_next, get_size, allocate_at,
  find_block, kmalloc,
}
use pell_os.KernelHeap.FreeList.{Block, Ordered-bounds, Ordered-append, Seg, Seg-append}
use pell_os.KernelHeap.FirstFit.{
  leftover, take_fit, take_fit-Fit, Fit, find_block-fit, find_block-fault,
}
use pell_os.KernelHeap.Alloc.{IsFreeList, IsAllocated, allocate_at-IsAllocated}

-- No block is larger than what is taken by less than a header.
abbrev pub NoSliver : ℕ → List Block → Type 0
NoSliver alloc_size bs =
    All (λ b. (b.size < alloc_size) ⊎ ((b.size ≡ alloc_size) ⊎ (alloc_size + 24 ≤ b.size))) bs

NoSliver-append :
    (alloc_size : ℕ) (xs : List Block) (b : Block) (ys : List Block)
    → NoSliver alloc_size (xs ++ (b ∷ ys))
    → (b.size < alloc_size) ⊎ ((b.size ≡ alloc_size) ⊎ (alloc_size + 24 ≤ b.size))
NoSliver-append alloc_size [] b ys (h, _) = h
NoSliver-append alloc_size (x ∷ xs) b ys (_, hs) = NoSliver-append alloc_size xs b ys hs

length_before :
    (xs : List Block) (b : Block) (ys : List Block) → length xs < length (xs ++ (b ∷ ys))
length_before [] b ys = omega arith
length_before (x ∷ xs) b ys = omega (arith, length_before xs b ys)

module _ (fuel size : ℕ) (h : KernelHeap) (small : size + 8 < 2 ^ 64) where
  -- What a call comes to, by what first fit finds in the list.
  abbrev pub Allocation : List Block → Option (ℕ × List Block) → Type 0
  Allocation bs none =
      ((bs ≡ []) × (kmalloc fuel size h ≡ returns (0, h)))
      ⊎ ((0 < length bs) × (kmalloc fuel size h ≡ fault))
  Allocation bs (some (a, bs')) =
      (h' : KernelHeap) × (kmalloc fuel size h ≡ returns (a + 8, h'))
      × IsAllocated h h' a size bs bs'

  kmalloc-find_block :
      (bs : List Block)
      → 0 < length bs
      → (f : IsFreeList h bs) → kmalloc fuel size h ≡ find_block fuel f.start size h
  unfolding kmalloc
  kmalloc-find_block [] more f = absurd (omega arith)
  kmalloc-find_block (b ∷ bs) more f =
      let top = Ordered-bounds (b.adr + b.size) bs end_of_heap f.ordered.2 in
      let e : (f.start == end_of_heap) ≡ false =
        ground (arith, f.chain.0, f.ordered.0, f.ordered.1) in
      let e' : h.first_free ≡ f.start = f.first ∙ rw e refl in
      let e'' : (h.first_free == 0) ≡ false = ground (arith, f.chain.0, f.ordered.0) in
      rw e'' (ap (λ a. find_block fuel a size h) e')

  fit-IsAllocated :
      (xs : List Block) (b : Block) (ys : List Block)
      → IsFreeList h (xs ++ (b ∷ ys))
      → NoSliver (size + 8) (xs ++ (b ∷ ys))
      → size + 8 ≤ b.size
      → (h' : KernelHeap) × (allocate_at b.adr size h ≡ (b.adr + 8, h'))
        × IsAllocated h h' b.adr size (xs ++ (b ∷ ys)) (xs ++ leftover (size + 8) b ys)
  fit-IsAllocated xs b ys f clean fits =
      let (p, x, before, (e, prev, room, behind)) =
        Seg-append h.memory start_of_heap f.start xs (b ∷ ys) f.last end_of_heap f.chain in
      let (mid, o, o') = Ordered-append 1 xs (b ∷ ys) end_of_heap f.ordered in
      let mem = h.memory in
      allocate_at-IsAllocated h size small f.start xs b ys p (get_next mem b.adr) f.last mid f.first
        (subst (λ a. Seg mem start_of_heap f.start xs p a) e before)
        (subst (λ a. get_prev mem a ≡ p) e prev) refl (subst (λ a. get_size mem a ≡ b.size) e room)
        (subst (λ a. Seg mem a (get_next mem a) ys f.last end_of_heap) e behind) o o' fits
        (NoSliver-append (size + 8) xs b ys clean)

  by_cases :
      (bs : List Block) (r : Option (ℕ × List Block))
      → IsFreeList h bs
      → NoSliver (size + 8) bs
      → length bs < fuel
      → Fit (size + 8) bs r
      → Allocation bs r
  by_cases [] none f clean enough small_all =
      let e : h.first_free ≡ 0 = f.first ∙ ap (λ a. if a == end_of_heap then 0 else a) f.chain.1 in
      inl (refl, unfold kmalloc in rw e refl)
  by_cases (b ∷ bs) none f clean enough small_all = inr (
    omega arith,
    kmalloc-find_block (b ∷ bs) (omega arith) f
        ∙ find_block-fault h size small fuel start_of_heap f.start (b ∷ bs) f.last 1 enough
            (omega arith) f.chain f.ordered small_all,
  )
  by_cases bs (some (a, bs')) f clean enough (xs, b, ys, e, ea, e', small_before, fits) =
      rw (e, ea, e') (found (subst (IsFreeList h) e f) (subst (NoSliver (size + 8)) e clean))
    where
      found :
          IsFreeList h (xs ++ (b ∷ ys))
          → NoSliver (size + 8) (xs ++ (b ∷ ys))
          → Allocation (xs ++ (b ∷ ys)) (some (b.adr, xs ++ leftover (size + 8) b ys))
      found f clean =
          let (h', q, done) = fit-IsAllocated xs b ys f clean fits in
          let more = length_before xs b ys in
          (
            h',
            kmalloc-find_block (xs ++ (b ∷ ys)) (omega (arith, more)) f
                ∙ find_block-fit h size small fuel start_of_heap f.start xs b ys f.last 1
                    (omega (arith, ap length e, more)) (omega arith) f.chain f.ordered small_before
                    fits
                ∙ ap returns q,
            done,
          )

-- On a heap with a list of free blocks, none of which is larger than the request with its header by
-- less than the header of a free block: `kmalloc` takes the first block that is large enough. It
-- returns the address behind the request's header, which holds the size; the free list is then the
-- one that first fit leaves, and every word outside the free blocks is kept. With an empty list it
-- returns 0. With no block large enough it follows the link of the last block, which names no memory.
pub kmalloc-take_fit :
    (fuel size : ℕ) (h : KernelHeap) (bs : List Block)
    → (small : size + 8 < 2 ^ 64) → IsFreeList h bs
    → NoSliver (size + 8) bs
    → length bs < fuel
    → Allocation fuel size h small bs (take_fit (size + 8) bs)
kmalloc-take_fit fuel size h bs small f clean enough =
    by_cases fuel size h small bs (take_fit (size + 8) bs) f clean enough
      (take_fit-Fit (size + 8) bs)
