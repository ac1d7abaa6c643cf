-- ===== src/KernelHeap/Alloc.antt =====
-- `kmalloc` (src/lib/kmalloc.c) is first fit on the list of free blocks.
use pell_os.Base.{
  ℕ, ◌+◌, ◌-◌, ◌%◌, ◌^◌, ◌≤◌, ◌<◌, ◌≡◌, ◌≢◌, ◌⊎◌, inl, inr, refl, sym, ◌∙◌, true, false, List, [],
  ◌∷◌, ◌++◌, ◌==◌, All, arith, if◌then◌else◌, Bool-cases,
}
use pell_os.Base.Memory.{Memory, Apart, read64, write64, read64-write64}
use pell_os.KernelHeap.{
  KernelHeap, start_of_heap, end_of_heap, get_prev, get_next, get_size, take_block, allocate_at,
}
use pell_os.KernelHeap.FreeList.{
  Block, Ordered, Ordered-bounds, append-Ordered, Seg, append-Seg, last_bounds, Seg-set_last,
  Seg-set_first,
}
use pell_os.KernelHeap.Links.{IsUnlinked, IsAround, header, take_block-Exact, take_block-Split}
use pell_os.KernelHeap.FirstFit.{leftover}

-- The heap's free blocks are those of the list, in the order of their addresses. With none, the
-- first link is 0.
pub record IsFreeList (h : KernelHeap) (bs : List Block) : Type 0 where
  pub start : ℕ
  pub last : ℕ
  pub first : h.first_free ≡ (if start == end_of_heap then 0 else start)
  pub chain : Seg h.memory start_of_heap start bs last end_of_heap
  pub ordered : Ordered 1 bs end_of_heap

-- The word at `y` has no byte in a free block.
abbrev pub OutsideFree : ℕ → List Block → Type 0
OutsideFree y bs = All (λ b. (y + 8 ≤ b.adr) ⊎ (b.adr + b.size ≤ y)) bs

-- The links before a block that is taken: the list that ended in `p` and led to the block now leads
-- to `v`.
relink_before :
    (mem mem' : Memory) (start : ℕ) (xs : List Block) (p a n s v u mid : ℕ)
    → Seg mem start_of_heap start xs p a
    → Ordered 1 xs mid
    → mid ≤ a
    → (s ≢ end_of_heap → a + n ≤ s)
    → IsUnlinked mem mem' a n p s v u
    → Seg mem' start_of_heap (if p == start_of_heap then v else start) xs p v
relink_before mem mem' start [] p a n s v u mid (e, _) o h hs link = rw (sym e) (refl, refl)
relink_before mem mem' start (x ∷ xs) p a n s v u mid seg o h hs link =
    let (low, high) = last_bounds mem 1 start_of_heap start x xs p a mid seg o in
    let low_x = o.0 in
    let e : (p == start_of_heap) ≡ false = ground arith in
    rw e (
      Seg-set_last mem mem' 1 start_of_heap start x xs p a mid v seg o
        (λ y low_y high_y apart.
          link.kept y (inl (omega arith)) (λ _. apart) (λ ne. let b = hs ne in inr (omega arith)))
        (link.next_of_prev (omega arith)))

-- The links behind a block that is taken: its successor now leads back to `u`.
relink_behind :
    (mem mem' : Memory) (ys : List Block) (p a n s v u last : ℕ)
    → Seg mem a s ys last end_of_heap
    → Ordered (a + n) ys end_of_heap
    → (p ≢ start_of_heap → p + 24 ≤ a)
    → IsUnlinked mem mem' a n p s v u
    → (last' : ℕ) × Seg mem' u s ys last' end_of_heap
relink_behind mem mem' [] p a n s v u last (_, e) o hp link = (u, (refl, e))
relink_behind mem mem' (y ∷ ys) p a n s v u last seg o hp link =
    let e = seg.0 in
    let low = o.0 in
    let room = o.1 in
    let top = Ordered-bounds (y.adr + y.size) ys end_of_heap o.2 in
    (
      last,
      Seg-set_first mem mem' (a + n) a s y ys last end_of_heap end_of_heap u seg o
          (λ z h h' apart.
            link.kept z (inr (omega arith)) (λ ne. let b = hp ne in inl (omega arith)) (λ _. apart))
          (link.prev_of_next (omega arith)),
    )

-- What surrounds a block of the list.
around :
    (mem : Memory) (start : ℕ) (xs : List Block) (b : Block) (ys : List Block) (p s last mid : ℕ)
    → Seg mem start_of_heap start xs p b.adr
    → Ordered 1 xs mid
    → Ordered mid (b ∷ ys) end_of_heap
    → Seg mem b.adr s ys last end_of_heap
    → IsAround b.adr b.size p s
around mem start xs b ys p s last mid before o (low, room, o') behind =
    let top = Ordered-bounds (b.adr + b.size) ys end_of_heap o' in
    let bottom = Ordered-bounds 1 xs mid o in
    record {
      room = room;
      above = omega arith;
      below = top;
      before = bef xs before o low;
      behind = aft ys behind o';
    }
  where
    bef :
        (xs : List Block)
        → Seg mem start_of_heap start xs p b.adr
        → Ordered 1 xs mid
        → mid ≤ b.adr
        → p ≢ start_of_heap
        → p + 24 ≤ b.adr
    bef [] (e, _) o low ne = absurd (ne (sym e))
    bef (x ∷ xs) s o low ne =
        omega (arith, (last_bounds mem 1 start_of_heap start x xs p b.adr mid s o).1)

    aft :
        (ys : List Block)
        → Seg mem b.adr s ys last end_of_heap
        → Ordered (b.adr + b.size) ys end_of_heap
        → s ≢ end_of_heap
        → (b.adr + b.size ≤ s) × (s + 24 ≤ end_of_heap)
    aft [] (_, e) o ne = absurd (ne e)
    aft (y ∷ ys) (e, _, _, _) (low, room, o) ne =
        let top = Ordered-bounds (y.adr + y.size) ys end_of_heap o in (omega arith, omega arith)

-- A word outside the blocks is outside the header of the last one.
outside_last :
    (mem : Memory) (prev a : ℕ) (b : Block) (bs : List Block) (last next lo hi y : ℕ)
    → Seg mem prev a (b ∷ bs) last next
    → Ordered lo (b ∷ bs) hi
    → OutsideFree y (b ∷ bs)
    → Apart (last + 8) y
outside_last mem prev a b [] last next lo hi y (e, _, _, (q, _)) (_, room, _) (out, _) = elim out [
  | inl h ↦ inr (omega arith)
  | inr h ↦ inl (omega arith)
]
outside_last mem prev a b (c ∷ bs) last next lo hi y (_, _, _, s) (_, _, o) (_, outs) =
    outside_last mem a (get_next mem a) c bs last next (b.adr + b.size) hi y s o outs

Ordered-weaken :
    (lo lo' : ℕ) (bs : List Block) (hi : ℕ) → lo' ≤ lo → Ordered lo bs hi → Ordered lo' bs hi
Ordered-weaken lo lo' [] hi h o = omega arith
Ordered-weaken lo lo' (b ∷ bs) hi h (low, room, o) = (omega arith, room, o)

OutsideFree-append :
    (y : ℕ) (xs : List Block) (b : Block) (ys : List Block)
    → OutsideFree y (xs ++ (b ∷ ys))
    → OutsideFree y xs × ((y + 8 ≤ b.adr) ⊎ (b.adr + b.size ≤ y)) × OutsideFree y ys
OutsideFree-append y [] b ys (out, outs) = (tt, out, outs)
OutsideFree-append y (x ∷ xs) b ys (out, outs) =
    let (before, here, behind) = OutsideFree-append y xs b ys outs in ((out, before), here, behind)

-- A word outside the blocks around one is apart from their two links.
outside_before :
    (mem : Memory) (start : ℕ) (xs : List Block) (p a mid y : ℕ)
    → Seg mem start_of_heap start xs p a
    → Ordered 1 xs mid
    → OutsideFree y xs
    → p ≢ start_of_heap
    → Apart (p + 8) y
outside_before mem start [] p a mid y (e, _) o outs ne = absurd (ne (sym e))
outside_before mem start (x ∷ xs) p a mid y s o outs ne =
    outside_last mem start_of_heap start x xs p a 1 mid y s o outs

outside_behind :
    (mem : Memory) (a s : ℕ) (ys : List Block) (last lo y : ℕ)
    → Seg mem a s ys last end_of_heap
    → Ordered lo ys end_of_heap
    → OutsideFree y ys
    → s ≢ end_of_heap
    → Apart s y
outside_behind mem a s [] last lo y (_, e) o outs ne = absurd (ne e)
outside_behind mem a s (c ∷ ys) last lo y (e, _, _, _) (_, room, _) (out, _) ne = elim out [
  | inl h ↦ inr (omega arith)
  | inr h ↦ inl (omega arith)
]

-- What an allocation of a block of the list leaves.
pub record IsAllocated (h h' : KernelHeap) (a size : ℕ) (bs bs' : List Block) : Type 0 where
  pub free : IsFreeList h' bs'
  pub word : read64 h'.memory a ≡ size
  pub kept : (y : ℕ) → OutsideFree y bs → read64 h'.memory y ≡ read64 h.memory y

module _ (h : KernelHeap) (size : ℕ) (small : size + 8 < 2 ^ 64) (start : ℕ) (xs : List Block)
    (b : Block) (ys : List Block) (p s last mid : ℕ)
    (first : h.first_free ≡ (if start == end_of_heap then 0 else start))
    (before : Seg h.memory start_of_heap start xs p b.adr) (prev : get_prev h.memory b.adr ≡ p)
    (next : get_next h.memory b.adr ≡ s) (room : get_size h.memory b.adr ≡ b.size)
    (behind : Seg h.memory b.adr s ys last end_of_heap) (o : Ordered 1 xs mid)
    (o' : Ordered mid (b ∷ ys) end_of_heap) where
  heap-IsAround : IsAround b.adr b.size p s
  heap-IsAround = around h.memory start xs b ys p s last mid before o o' behind

  abbrev taken : KernelHeap
  taken = take_block (header p s b.size) (b.adr + (size + 8)) (size + 8) h

  abbrev result : KernelHeap
  result = record taken { memory = write64 b.adr size taken.memory }

  allocate_at_lem : size + 8 ≤ b.size → allocate_at b.adr size h ≡ (b.adr + 8, result)
  unfolding allocate_at
  allocate_at_lem fits =
      let hi = heap-IsAround.below in
      let e : (size + 8) % 2 ^ 64 ≡ size + 8 = omega arith in
      let e' : (b.adr + (size + 8)) % 2 ^ 64 ≡ b.adr + (size + 8) = omega arith in
      let e'' : (b.adr + 8) % 2 ^ 64 ≡ b.adr + 8 = omega arith in
      rw (e, e', e'', prev, next, room) refl

  kept_words :
      (mem' : Memory) (v u : ℕ)
      → IsUnlinked h.memory mem' b.adr b.size p s v u
      → (y : ℕ) → OutsideFree y (xs ++ (b ∷ ys))
      → read64 mem' y ≡ read64 h.memory y
  kept_words mem' v u link y outs =
      let (out, here, out') = OutsideFree-append y xs b ys outs in
      link.kept y here (outside_before h.memory start xs p b.adr mid y before o out)
        (outside_behind h.memory b.adr s ys last (b.adr + b.size) y behind o'.2 out')

  first_exact :
      (if p == start_of_heap then (if s == end_of_heap then 0 else s) else h.first_free) ≡ (
        if (if p == start_of_heap then s else start) == end_of_heap
        then 0
        else (if p == start_of_heap then s else start))
  first_exact = elim (Bool-cases (p == start_of_heap)) [ inl e ↦ rw e refl | inr e ↦ rw e first ]

  first_split :
      (r : ℕ)
      → r < end_of_heap
      → (if p == start_of_heap then r else h.first_free) ≡ (
          if (if p == start_of_heap then r else start) == end_of_heap
          then 0
          else (if p == start_of_heap then r else start))
  first_split r lt = elim (Bool-cases (p == start_of_heap)) [
    | inl e ↦ rw e (ground arith)
    | inr e ↦ rw e first
  ]

  exact-IsAllocated :
      b.size ≡ size + 8 → IsAllocated h result b.adr size (xs ++ (b ∷ ys)) (xs ++ ys)
  exact-IsAllocated fits =
      let (link, f) =
        take_block-Exact h b.adr p s b.size size heap-IsAround (omega arith) (b.adr + (size + 8))
          (size + 8) (sym fits) in
      let mem' = result.memory in
      let (last', after) =
        relink_behind h.memory mem' ys p b.adr b.size s s p last behind o'.2 heap-IsAround.before
          link in
      record {
        free = record {
          start = if p == start_of_heap then s else start;
          last = last';
          first = f ∙ first_exact;
          chain =
              append-Seg mem' start_of_heap (if p == start_of_heap then s else start) xs ys p s
                last' end_of_heap
                (relink_before h.memory mem' start xs p b.adr b.size s s p mid before o o'.0
                  (λ ne. (heap-IsAround.behind ne).0) link)
                after;
          ordered =
              append-Ordered 1 xs ys mid end_of_heap o
                (Ordered-weaken (b.adr + b.size) mid ys end_of_heap (omega (arith, o'.0)) o'.2);
        };
        word = read64-write64 taken.memory b.adr size (omega arith);
        kept = kept_words mem' s p link;
      }

  split-IsAllocated :
      size + 8 + 24 ≤ b.size
      → IsAllocated h result b.adr size
          (xs ++ (b ∷ ys))
          (xs ++ (record { adr = b.adr + (size + 8); size = b.size - (size + 8) } ∷ ys))
  split-IsAllocated fits =
      let ((link, head), f) =
        take_block-Split h b.adr p s b.size size heap-IsAround (omega arith) (b.adr + (size + 8))
          (size + 8) refl (omega arith) fits in
      let mem' = result.memory in
      let r = b.adr + (size + 8) in
      let bottom = Ordered-bounds (b.adr + b.size) ys end_of_heap o'.2 in
      let (last', after) =
        relink_behind h.memory mem' ys p b.adr b.size s r r last behind o'.2 heap-IsAround.before
          link in
      record {
        free = record {
          start = if p == start_of_heap then r else start;
          last = last';
          first = f ∙ first_split r (omega arith);
          chain =
              append-Seg mem' start_of_heap (if p == start_of_heap then r else start) xs _ p r last'
                end_of_heap
                (relink_before h.memory mem' start xs p b.adr b.size s r r mid before o o'.0
                  (λ ne. (heap-IsAround.behind ne).0) link)
                (refl, head.prev, head.size ∙ omega arith, rw head.next after);
          ordered = append-Ordered 1 xs _ mid end_of_heap o (
            omega (arith, o'.0),
            omega arith,
            Ordered-weaken (b.adr + b.size) (r + (b.size - (size + 8))) ys end_of_heap (omega arith)
                o'.2,
          );
        };
        word = read64-write64 taken.memory b.adr size (omega arith);
        kept = kept_words mem' r r link;
      }

  pub allocate_at-IsAllocated :
      size + 8 ≤ b.size
      → (b.size < size + 8) ⊎ ((b.size ≡ size + 8) ⊎ (size + 8 + 24 ≤ b.size))
      → (h' : KernelHeap) × (allocate_at b.adr size h ≡ (b.adr + 8, h'))
        × IsAllocated h h' b.adr size (xs ++ (b ∷ ys)) (xs ++ leftover (size + 8) b ys)
  allocate_at-IsAllocated fits (inl lt) = absurd (omega arith)
  allocate_at-IsAllocated fits (inr (inl e)) =
      let same : (b.size == size + 8) ≡ true = ground arith in
      rw same (result, allocate_at_lem fits, exact-IsAllocated e)
  allocate_at-IsAllocated fits (inr (inr le)) =
      let other : (b.size == size + 8) ≡ false = ground arith in
      rw other (result, allocate_at_lem fits, split-IsAllocated le)
