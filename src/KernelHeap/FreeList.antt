-- ===== src/KernelHeap/FreeList.antt =====
-- The free list of the kernel heap (src/lib/kmalloc.c) as a list of blocks: segments of it in
-- memory, and what a change of one link does to them.
use pell_os.Base.{ℕ, ◌+◌, ◌≤◌, ◌≡◌, ◌⊎◌, refl, ◌∙◌, List, [], ◌∷◌, ◌++◌, arith, inl, inr}
use pell_os.Base.Memory.{Memory, Apart, read64}
use pell_os.KernelHeap.{get_prev, get_next, get_size}

pub record Block : Type 0 where
  pub adr : ℕ
  pub size : ℕ

-- The size of `free_mem_header_t`.
abbrev pub header_bytes : ℕ
header_bytes = 24

-- The blocks lie one behind the other from `lo` to `hi`, and each has room for its header.
abbrev pub Ordered : ℕ → List Block → ℕ → Type 0
Ordered lo [] hi = lo ≤ hi
Ordered lo (b ∷ bs) hi = (lo ≤ b.adr) × (header_bytes ≤ b.size) × Ordered (b.adr + b.size) bs hi

-- From `a`, whose predecessor is `prev`, the links lead through the blocks to `next`, whose
-- predecessor is `last`.
abbrev pub Seg : Memory → (prev a : ℕ) → List Block → (last next : ℕ) → Type 0
Seg mem prev a [] last next = (prev ≡ last) × (a ≡ next)
Seg mem prev a (b ∷ bs) last next =
    (a ≡ b.adr)
    × (get_prev mem a ≡ prev)
    × (get_size mem a ≡ b.size)
    × Seg mem a (get_next mem a) bs last next

pub Ordered-bounds : (lo : ℕ) (bs : List Block) (hi : ℕ) → Ordered lo bs hi → lo ≤ hi
Ordered-bounds lo [] hi o = o
Ordered-bounds lo (b ∷ bs) hi (low, room, o) =
    omega (arith, Ordered-bounds (b.adr + b.size) bs hi o)

pub Ordered-append :
    (lo : ℕ) (xs ys : List Block) (hi : ℕ)
    → Ordered lo (xs ++ ys) hi
    → (mid : ℕ) × Ordered lo xs mid × Ordered mid ys hi
Ordered-append lo [] ys hi o = (lo, omega arith, o)
Ordered-append lo (x ∷ xs) ys hi (low, room, o) =
    let (mid, before, after) = Ordered-append (x.adr + x.size) xs ys hi o in
    (mid, (low, room, before), after)

pub append-Ordered :
    (lo : ℕ) (xs ys : List Block) (mid hi : ℕ)
    → Ordered lo xs mid
    → Ordered mid ys hi
    → Ordered lo (xs ++ ys) hi
append-Ordered lo [] [] mid hi h o = omega arith
append-Ordered lo [] (y ∷ ys) mid hi h (low, room, o) = (omega arith, room, o)
append-Ordered lo (x ∷ xs) ys mid hi (low, room, o) o' =
    (low, room, append-Ordered (x.adr + x.size) xs ys mid hi o o')

pub Seg-append :
    (mem : Memory) (prev a : ℕ) (xs ys : List Block) (last next : ℕ)
    → Seg mem prev a (xs ++ ys) last next
    → (p : ℕ) × (x : ℕ) × Seg mem prev a xs p x × Seg mem p x ys last next
Seg-append mem prev a [] ys last next s = (prev, a, (refl, refl), s)
Seg-append mem prev a (b ∷ xs) ys last next (e, ep, es, s) =
    let (p, x, before, after) = Seg-append mem a (get_next mem a) xs ys last next s in
    (p, x, (e, ep, es, before), after)

pub append-Seg :
    (mem : Memory) (prev a : ℕ) (xs ys : List Block) (p x last next : ℕ)
    → Seg mem prev a xs p x
    → Seg mem p x ys last next
    → Seg mem prev a (xs ++ ys) last next
append-Seg mem prev a [] ys p x last next (ep, ex) s = rw (ep, ex) s
append-Seg mem prev a (b ∷ xs) ys p x last next (e, ep, es, s) s' =
    (e, ep, es, append-Seg mem a (get_next mem a) xs ys p x last next s s')

-- The last block of a segment lies in its range.
pub last_bounds :
    (mem : Memory) (lo prev a : ℕ) (b : Block) (bs : List Block) (last next hi : ℕ)
    → Seg mem prev a (b ∷ bs) last next
    → Ordered lo (b ∷ bs) hi
    → (b.adr ≤ last) × (last + header_bytes ≤ hi)
last_bounds mem lo prev a b [] last next hi (e, _, _, (q, _)) (_, room, o) =
    (omega arith, omega arith)
last_bounds mem lo prev a b (c ∷ bs) last next hi (e, _, _, s) (_, room, o) =
    let ih = last_bounds mem (b.adr + b.size) a (get_next mem a) c bs last next hi s o in
    (omega (arith, ih.0, o.0), ih.1)

-- A segment starts in its range, unless it is empty.
pub start_bounds :
    (mem : Memory) (lo prev a : ℕ) (bs : List Block) (last next hi : ℕ)
    → Seg mem prev a bs last next
    → Ordered lo bs hi
    → (a ≡ next) ⊎ ((lo ≤ a) × (a + header_bytes ≤ hi))
start_bounds mem lo prev a [] last next hi (_, e) o = inl e
start_bounds mem lo prev a (b ∷ bs) last next hi (e, _, _, _) (low, room, o) =
    let top = Ordered-bounds (b.adr + b.size) bs hi o in inr (omega arith, omega arith)

module _ (mem mem' : Memory) where
  -- The words from `lo` to `hi` are kept.
  abbrev pub Kept : ℕ → ℕ → Type 0
  Kept lo hi = (y : ℕ) → lo ≤ y → y + 8 ≤ hi → read64 mem' y ≡ read64 mem y

  pub Seg-Kept :
      (lo prev a : ℕ) (bs : List Block) (last next hi : ℕ)
      → Seg mem prev a bs last next
      → Ordered lo bs hi
      → Kept lo hi
      → Seg mem' prev a bs last next
  Seg-Kept lo prev a [] last next hi s o kept = s
  Seg-Kept lo prev a (b ∷ bs) last next hi (e, ep, es, s) (low, room, o) kept =
      let top = Ordered-bounds (b.adr + b.size) bs hi o in
      (
        e,
        kept a (omega arith) (omega arith) ∙ ep,
        kept (a + 16) (omega arith) (omega arith) ∙ es,
        rw (kept (a + 8) (omega arith) (omega arith)) (
            Seg-Kept (b.adr + b.size) a (get_next mem a) bs last next hi s o
              (λ y h h'. kept y (omega arith) h')),
      )

  -- The link of the last block is set to `v`.
  pub Seg-set_last :
      (lo prev a : ℕ) (b : Block) (bs : List Block) (last next hi v : ℕ)
      → Seg mem prev a (b ∷ bs) last next
      → Ordered lo (b ∷ bs) hi
      → ((y : ℕ) → lo ≤ y → y + 8 ≤ hi → Apart (last + 8) y → read64 mem' y ≡ read64 mem y)
      → get_next mem' last ≡ v
      → Seg mem' prev a (b ∷ bs) last v
  Seg-set_last lo prev a b [] last next hi v (e, ep, es, (q, _)) (low, room, o) kept link = (
    e,
    kept a (omega arith) (omega arith) (inr (omega arith)) ∙ ep,
    kept (a + 16) (omega arith) (omega arith) (inl (omega arith)) ∙ es,
    (q, rw q link),
  )
  Seg-set_last lo prev a b (c ∷ bs) last next hi v (e, ep, es, s) (low, room, o) kept link =
      let (behind, top) =
        last_bounds mem (b.adr + b.size) a (get_next mem a) c bs last next hi s o in
      let low_c = o.0 in
      (
        e,
        kept a (omega arith) (omega arith) (inr (omega arith)) ∙ ep,
        kept (a + 16) (omega arith) (omega arith) (inr (omega arith)) ∙ es,
        rw (kept (a + 8) (omega arith) (omega arith) (inr (omega arith))) (
            Seg-set_last (b.adr + b.size) a (get_next mem a) c bs last next hi v s o
              (λ y h h'. kept y (omega arith) h') link),
      )

  -- The back link of the first block is set to `u`.
  pub Seg-set_first :
      (lo prev a : ℕ) (b : Block) (bs : List Block) (last next hi u : ℕ)
      → Seg mem prev a (b ∷ bs) last next
      → Ordered lo (b ∷ bs) hi
      → ((y : ℕ) → lo ≤ y → y + 8 ≤ hi → Apart a y → read64 mem' y ≡ read64 mem y)
      → get_prev mem' a ≡ u
      → Seg mem' u a (b ∷ bs) last next
  Seg-set_first lo prev a b bs last next hi u (e, ep, es, s) (low, room, o) kept link =
      let top = Ordered-bounds (b.adr + b.size) bs hi o in
      (
        e,
        link,
        kept (a + 16) (omega arith) (omega arith) (inl (omega arith)) ∙ es,
        rw (kept (a + 8) (omega arith) (omega arith) (inl (omega arith))) (
            Seg-Kept (b.adr + b.size) a (get_next mem a) bs last next hi s o
              (λ y h h'. kept y (omega arith) h' (inl (omega arith)))),
      )
