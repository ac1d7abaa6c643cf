-- ===== src/KernelHeap/FirstFit.antt =====
-- First fit on a list of free blocks, and where the loop of `kmalloc` (src/lib/kmalloc.c) finds it.
use pell_os.Base.{
  ℕ, zero, suc, ◌+◌, ◌-◌, ◌%◌, ◌^◌, ◌≤◌, ◌<◌, ◌≡◌, inl, inr, refl, ◌∙◌, ap, true, false, not, ◌||◌,
  Option, none, some, List, [], ◌∷◌, ◌++◌, ◌==◌, leb, All, length, arith, if◌then◌else◌, Bool-cases,
}
use pell_os.Base.Memory.{read64}
use pell_os.KernelHeap.{
  KernelHeap, returns, fault, start_of_heap, end_of_heap, get_next, names_memory, allocate_at,
  find_block,
}
use pell_os.KernelHeap.FreeList.{Block, Ordered, Ordered-bounds, Seg}

-- What is left of the list from a block on, once `alloc_size` bytes of that block are taken.
abbrev pub leftover : ℕ → Block → List Block → List Block
leftover alloc_size b bs =
    if b.size == alloc_size
    then bs
    else record { adr = b.adr + alloc_size; size = b.size - alloc_size } ∷ bs

-- The first block that is large enough: its address, and the list without what is taken.
unfoldable pub take_fit : ℕ → List Block → Option (ℕ × List Block)
take_fit alloc_size [] = none
take_fit alloc_size (b ∷ bs) =
    if leb alloc_size b.size
    then some (b.adr, leftover alloc_size b bs)
    else elim (take_fit alloc_size bs) [ none ↦ none | some (a, bs') ↦ some (a, b ∷ bs') ]

abbrev pub TooSmall : ℕ → List Block → Type 0
TooSmall alloc_size bs = All (λ b. b.size < alloc_size) bs

-- How the list falls into what is before the first fit, that block, and what is behind it.
abbrev pub Fit : ℕ → List Block → Option (ℕ × List Block) → Type 0
Fit alloc_size bs none = TooSmall alloc_size bs
Fit alloc_size bs (some (a, bs')) =
    (xs : List Block) × (b : Block) × (ys : List Block) × (bs ≡ xs ++ (b ∷ ys))
    × (a ≡ b.adr)
    × (bs' ≡ xs ++ leftover alloc_size b ys)
    × TooSmall alloc_size xs
    × (alloc_size ≤ b.size)

Fit-cons :
    (alloc_size : ℕ) (b : Block) (bs : List Block) (r : Option (ℕ × List Block))
    → b.size < alloc_size
    → Fit alloc_size bs r
    → Fit alloc_size (b ∷ bs) (elim r as (λ r. Option (ℕ × List Block)) [
      | none ↦ none
      | some (a, bs') ↦ some (a, b ∷ bs')
    ])
Fit-cons alloc_size b bs none h f = (h, f)
Fit-cons alloc_size b bs (some (a, bs')) h (xs, c, ys, e, ea, e', small, fits) =
    (b ∷ xs, c, ys, ap (λ l. b ∷ l) e, ea, ap (λ l. b ∷ l) e', (h, small), fits)

pub take_fit-Fit : (alloc_size : ℕ) (bs : List Block) → Fit alloc_size bs (take_fit alloc_size bs)
unfolding take_fit
take_fit-Fit alloc_size [] = tt
take_fit-Fit alloc_size (b ∷ bs) = elim (Bool-cases (leb alloc_size b.size)) [
  | inl e ↦ rw e ([], b, bs, refl, refl, refl, tt, ground (arith, e))
  | inr e ↦ rw e (
      Fit-cons alloc_size b bs (take_fit alloc_size bs) (ground (arith, e))
        (take_fit-Fit alloc_size bs))
]

goes_on : (next : ℕ) → (not (next == end_of_heap) || not (next == start_of_heap)) ≡ true
goes_on next = ground arith

names_memory_lem : (a : ℕ) → 0 < a → a < end_of_heap → names_memory a ≡ true
names_memory_lem a h h' = ground arith

module _ (h : KernelHeap) (size : ℕ) (small : size + 8 < 2 ^ 64) where
  alloc_size_lem : (size + 8) % 2 ^ 64 ≡ size + 8
  alloc_size_lem = omega arith

  -- One round of the loop.
  find_block-next :
      (fuel a n : ℕ)
      → 0 < a
      → a < end_of_heap
      → read64 h.memory (a + 16) ≡ n
      → n < size + 8
      → find_block (suc fuel) a size h ≡ find_block fuel (get_next h.memory a) size h
  unfolding find_block
  find_block-next fuel a n low high e lt =
      let here = names_memory_lem a low high in
      let miss : leb (size + 8) n ≡ false = ground arith in
      rw (here, alloc_size_lem, e, miss, goes_on (get_next h.memory a)) refl

  find_block-here :
      (fuel a n : ℕ)
      → 0 < a
      → a < end_of_heap
      → read64 h.memory (a + 16) ≡ n
      → size + 8 ≤ n
      → find_block (suc fuel) a size h ≡ returns (allocate_at a size h)
  unfolding find_block
  find_block-here fuel a n low high e le =
      let here = names_memory_lem a low high in
      let hit : leb (size + 8) n ≡ true = ground arith in rw (here, alloc_size_lem, e, hit) refl

  pub find_block-fit :
      (fuel prev a : ℕ) (xs : List Block) (b : Block) (ys : List Block) (last lo : ℕ)
      → length xs < fuel
      → 0 < lo
      → Seg h.memory prev a (xs ++ (b ∷ ys)) last end_of_heap
      → Ordered lo (xs ++ (b ∷ ys)) end_of_heap
      → TooSmall (size + 8) xs
      → size + 8 ≤ b.size
      → find_block fuel a size h ≡ returns (allocate_at b.adr size h)
  find_block-fit zero prev a xs b ys last lo f pos s o t fits = absurd (omega arith)
  find_block-fit (suc fuel) prev a [] b ys last lo f pos (e, _, es, _) (low, room, o) t fits =
      let top = Ordered-bounds (b.adr + b.size) ys end_of_heap o in
      find_block-here fuel a b.size (omega arith) (omega arith) es fits
      ∙ ap (λ a. returns (allocate_at a size h)) e
  find_block-fit (suc fuel) prev a (x ∷ xs) b ys last lo f pos (e, _, es, s) (low, room, o) (t, ts)
        fits =
      let top = Ordered-bounds (x.adr + x.size) (xs ++ (b ∷ ys)) end_of_heap o in
      find_block-next fuel a x.size (omega arith) (omega arith) es t
      ∙ find_block-fit fuel a (get_next h.memory a) xs b ys last (x.adr + x.size) (omega arith)
          (omega arith) s o ts fits

  pub find_block-fault :
      (fuel prev a : ℕ) (bs : List Block) (last lo : ℕ)
      → length bs < fuel
      → 0 < lo
      → Seg h.memory prev a bs last end_of_heap
      → Ordered lo bs end_of_heap
      → TooSmall (size + 8) bs
      → find_block fuel a size h ≡ fault
  find_block-fault zero prev a bs last lo f pos s o t = absurd (omega arith)
  find_block-fault (suc fuel) prev a [] last lo f pos (_, e) o t = unfold find_block in rw e refl
  find_block-fault (suc fuel) prev a (x ∷ xs) last lo f pos (e, _, es, s) (low, room, o) (t, ts) =
      let top = Ordered-bounds (x.adr + x.size) xs end_of_heap o in
      find_block-next fuel a x.size (omega arith) (omega arith) es t
      ∙ find_block-fault fuel a (get_next h.memory a) xs last (x.adr + x.size) (omega arith)
          (omega arith) s o ts
