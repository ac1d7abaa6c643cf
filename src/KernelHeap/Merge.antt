-- ===== src/KernelHeap/Merge.antt =====
-- `kfree` (src/lib/kmalloc.c) of the block before the first free one, and what it undoes.
use mathlib.Core.Path.{subst}
use pell_os.Base.{
  ℕ, suc, ◌+◌, ◌-◌, ◌%◌, ◌^◌, ◌≤◌, ◌<◌, ◌≡◌, ◌≢◌, ◌⊎◌, inl, inr, refl, sym, ◌∙◌, ap, Bool, true,
  false, List, [], ◌∷◌, ◌==◌, ltb, arith, if◌then◌else◌, Bool-cases, some, length, leb, ==_iff,
  ◌||◌,
}
use pell_os.Base.Memory.{Memory, Apart, read64, read64-write64, read64-write64-Apart}
use pell_os.KernelHeap.{
  KernelHeap, Call, returns, fault, out_of_fuel, start_of_heap, end_of_heap, get_prev, get_next,
  get_size, set_prev, set_header, names_memory, kmalloc,
}
use pell_os.KernelHeap.Free.{find_behind, search_behind, free_at, free_before_first, kfree}
use pell_os.KernelHeap.FreeList.{Block, Ordered, Ordered-bounds, Seg, Seg-set_first, start_bounds}
use pell_os.KernelHeap.FirstFit.{take_fit}
use pell_os.KernelHeap.Alloc.{IsFreeList}
use pell_os.KernelHeap.Malloc.{NoSliver, Allocation, kmalloc-take_fit}

ruleset words = (arith, read64-write64, read64-write64-Apart)

module _ (h : KernelHeap) (a size : ℕ) (c : Block) (bs : List Block) (f : IsFreeList h (c ∷ bs))
    (word : read64 h.memory a ≡ size) (above : 0 < a) (more : 0 < size)
    (meets : a + (size + 8) ≡ c.adr) where
  abbrev s : ℕ
  s = get_next h.memory c.adr

  start_lem : f.start ≡ c.adr
  start_lem = f.chain.0

  top : c.adr + c.size ≤ end_of_heap
  top = Ordered-bounds (c.adr + c.size) bs end_of_heap f.ordered.2

  first_lem : h.first_free ≡ c.adr
  first_lem =
      let e : (f.start == end_of_heap) ≡ false =
        ground (arith, start_lem, top, f.ordered.0, f.ordered.1) in
      f.first ∙ rw e start_lem

  search_lem : (fuel : ℕ) → search_behind (suc fuel) (a + 8) h ≡ returns (c.adr, true)
  unfolding search_behind find_behind
  search_lem fuel =
      let here : names_memory c.adr ≡ true = ground (arith, top, f.ordered.0, f.ordered.1) in
      let behind : ltb (a + 8) c.adr ≡ true = ground arith in
      rw first_lem (elim (Bool-cases (s == end_of_heap)) [
        | inl e ↦ elim (Bool-cases (get_prev h.memory c.adr == start_of_heap)) [
          | inl e' ↦ rw (e, e') refl
          | inr e' ↦ rw (e, e', here, behind) refl
        ]
        | inr e ↦ rw (e, here, behind) refl
      ])

  prev_lem : get_prev h.memory c.adr ≡ start_of_heap
  prev_lem = rw (sym start_lem) f.chain.1

  size_lem : get_size h.memory c.adr ≡ c.size
  size_lem = rw (sym start_lem) f.chain.2

  abbrev mem₁ : Memory
  mem₁ =
      set_header a (record { prev = start_of_heap; next = s; size = c.size + (size + 8) }) h.memory

  abbrev merged : KernelHeap
  merged = record { first_free = a; memory = if s == end_of_heap then mem₁ else set_prev s a mem₁ }

  behind : Seg h.memory c.adr s bs f.last end_of_heap
  behind =
      subst (λ a. Seg h.memory a (get_next h.memory a) bs f.last end_of_heap) start_lem f.chain.3

  s_bounds : (s ≡ end_of_heap) ⊎ ((c.adr + c.size ≤ s) × (s + 24 ≤ end_of_heap))
  s_bounds =
      start_bounds h.memory (c.adr + c.size) c.adr s bs f.last end_of_heap end_of_heap behind
        f.ordered.2

  free_at-merged :
      (start taken : ℕ)
      → start ≡ a
      → taken ≡ size + 8
      → free_at start taken h (c.adr, true) ≡ merged
  unfolding free_at free_before_first
  free_at-merged start taken e e' =
      let first : (get_prev h.memory c.adr == start_of_heap) ≡ true = ground (arith, prev_lem) in
      let meet : ((a + (size + 8)) % 2 ^ 64 == c.adr) ≡ true = ground (arith, top) in
      let moved : (c.adr + 2 ^ 64 - (size + 8)) % 2 ^ 64 ≡ a = omega (arith, top) in
      let sum : (get_size h.memory c.adr + (size + 8)) % 2 ^ 64 ≡ c.size + (size + 8) =
        omega (arith, size_lem, top) in
      let next : get_next mem₁ a ≡ s = grind (words, s_bounds) in
      rw (e, e', first, meet, moved, prev_lem, sum, next) refl

  kfree-merged : (fuel : ℕ) → kfree (suc fuel) (a + 8) h ≡ returns merged
  unfolding kfree
  kfree-merged fuel =
      let some_block : (a + 8 == 0 || h.first_free == 0) ≡ false =
        ground (arith, first_lem, f.ordered.0) in
      let start : (a + 8 + 2 ^ 64 - 8) % 2 ^ 64 ≡ a = omega (arith, top) in
      let taken : (read64 h.memory a + 8) % 2 ^ 64 ≡ size + 8 = omega (arith, top, word) in
      ap (λ (b : Bool). if b then returns h else freed (search_behind (suc fuel) (a + 8) h))
        some_block
      ∙ ap freed (search_lem fuel)
      ∙ ap returns
          (free_at-merged _ _ start (ap (λ p. (read64 h.memory p + 8) % 2 ^ 64) start ∙ taken))
    where
      freed : Call (ℕ × Bool) → Call KernelHeap
      freed r = elim r as (λ r. Call KernelHeap) [
        | returns r ↦ returns (
            free_at ((a + 8 + 2 ^ 64 - 8) % 2 ^ 64)
              ((read64 h.memory ((a + 8 + 2 ^ 64 - 8) % 2 ^ 64) + 8) % 2 ^ 64) h r)
        | fault ↦ fault
        | out_of_fuel ↦ out_of_fuel
      ]

  -- The words of the new header, and those that it leaves alone.
  record IsMerged (mem' : Memory) : Type 0 where
    prev : get_prev mem' a ≡ start_of_heap
    next : get_next mem' a ≡ s
    size_word : get_size mem' a ≡ c.size + (size + 8)
    back : s ≢ end_of_heap → get_prev mem' s ≡ a
    kept :
        (y : ℕ)
        → (y + 8 ≤ a) ⊎ (c.adr + c.size ≤ y)
        → (s ≢ end_of_heap → Apart s y)
        → read64 mem' y ≡ read64 h.memory y

  merged_lem : IsMerged merged.memory
  merged_lem =
      let low = f.ordered.1 in
      elim (Bool-cases (s == end_of_heap)) [
        | inl e ↦
            let last : s ≡ end_of_heap = (==_iff s end_of_heap).0 e in
            rw e (record {
              prev = grind words;
              next = grind words;
              size_word = grind (words, top);
              back = λ ne. absurd (ne last);
              kept = λ y out bs. grind words;
            })
        | inr e ↦
            let more' : s ≢ end_of_heap = λ q. ground (arith, e, (==_iff s end_of_heap).1 q) in
            let bounds : (c.adr + c.size ≤ s) × (s + 24 ≤ end_of_heap) = elim s_bounds [
              | inl q ↦ absurd (more' q)
              | inr b ↦ b
            ] in
            rw e (record {
              prev = grind (words, bounds);
              next = grind (words, bounds);
              size_word = grind (words, bounds, top);
              back = λ ne. grind (words, bounds, top);
              kept = λ y out bs. let apart = bs more' in grind (words, bounds);
            })
      ]

  merged-IsFreeList : IsFreeList merged (record { adr = a; size = c.size + (size + 8) } ∷ bs)
  merged-IsFreeList =
      let m = merged_lem in
      let after = after_lem bs behind f.ordered.2 in
      record {
        start = a;
        last = after.0;
        first = let e : (a == end_of_heap) ≡ false = ground (arith, top) in rw e refl;
        chain = (refl, m.prev, m.size_word, rw m.next after.1);
        ordered = (
          omega arith,
          omega (arith, f.ordered.1),
          subst (λ lo. Ordered lo bs end_of_heap) (omega arith) f.ordered.2,
        );
      }
    where
      after_lem :
          (bs : List Block)
          → Seg h.memory c.adr s bs f.last end_of_heap
          → Ordered (c.adr + c.size) bs end_of_heap
          → (last' : ℕ) × Seg merged.memory a s bs last' end_of_heap
      after_lem [] (_, e) o = (a, (refl, e))
      after_lem (b ∷ bs) seg o =
          let m = merged_lem in
          let top' = Ordered-bounds (b.adr + b.size) bs end_of_heap o.2 in
          (
            f.last,
            Seg-set_first h.memory merged.memory (c.adr + c.size) c.adr s b bs f.last end_of_heap
                end_of_heap a seg o (λ y low high apart. m.kept y (inr (omega arith)) (λ _. apart))
                (m.back (omega (arith, seg.0, o.1))),
          )

-- On a heap with a list of free blocks: freeing an allocated block of at least one byte that ends
-- where the first free block starts makes the two one free block.
pub kfree-merges :
    (fuel : ℕ) (h : KernelHeap) (a size : ℕ) (c : Block) (bs : List Block)
    → IsFreeList h (c ∷ bs)
    → read64 h.memory a ≡ size
    → 0 < a
    → 0 < size
    → a + (size + 8) ≡ c.adr
    → (h' : KernelHeap) × (kfree (suc fuel) (a + 8) h ≡ returns h')
      × IsFreeList h' (record { adr = a; size = c.size + (size + 8) } ∷ bs)
kfree-merges fuel h a size c bs f word above more meets = (
  merged h a size c bs f word above more meets,
  kfree-merged h a size c bs f word above more meets fuel,
  merged-IsFreeList h a size c bs f word above more meets,
)

-- The part of a block behind a request.
abbrev split_off : Block → ℕ → Block
split_off b size = record { adr = b.adr + (size + 8); size = b.size - (size + 8) }

-- On a heap with a list of free blocks whose first block is larger than a request of at least one
-- byte by a header or more, and with no block that would leave less: `kmalloc` returns a pointer,
-- and `kfree` of that pointer gives the list of free blocks back.
pub kfree-kmalloc :
    (fuel fuel' size : ℕ) (h : KernelHeap) (b : Block) (bs : List Block)
    → size + 8 < 2 ^ 64
    → IsFreeList h (b ∷ bs)
    → NoSliver (size + 8) (b ∷ bs)
    → size + 8 < b.size
    → 0 < size
    → length (b ∷ bs) < fuel
    → (ptr : ℕ) × (h' : KernelHeap) × (h'' : KernelHeap) × (kmalloc fuel size h ≡ returns (ptr, h'))
      × (kfree (suc fuel') ptr h' ≡ returns h'')
      × IsFreeList h'' (b ∷ bs)
unfolding take_fit
kfree-kmalloc fuel fuel' size h b bs small f clean fits more enough =
    let hit : leb (size + 8) b.size ≡ true = ground arith in
    let part : (b.size == size + 8) ≡ false = ground arith in
    let found : take_fit (size + 8) (b ∷ bs) ≡ some (b.adr, split_off b size ∷ bs) =
      rw (hit, part) refl in
    let (h', e, done) =
      subst (Allocation fuel size h small (b ∷ bs)) found
        (kmalloc-take_fit fuel size h (b ∷ bs) small f clean enough) in
    let (h'', e', free) =
      kfree-merges fuel' h' b.adr size (split_off b size) bs done.free done.word
        (omega (arith, f.ordered.0)) more refl in
    (
      b.adr + 8,
      h',
      h'',
      e,
      e',
      subst (λ n. IsFreeList h'' (record { adr = b.adr; size = n } ∷ bs)) (omega arith) free,
    )
