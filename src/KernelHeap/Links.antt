-- ===== src/KernelHeap/Links.antt =====
-- What the stores of `kmalloc` (src/lib/kmalloc.c) do to the links around the block that it takes.
use pell_os.Base.{
  ℕ, ◌+◌, ◌-◌, ◌^◌, ◌≤◌, ◌<◌, ◌≡◌, ◌≢◌, ◌⊎◌, inl, inr, refl, ◌==◌, true, false, arith,
  if◌then◌else◌, Bool-cases, ==_iff,
}
use pell_os.Base.Memory.{Memory, Apart, read64, write64, read64-write64, read64-write64-Apart}
use pell_os.KernelHeap.{
  KernelHeap, FreeHeader, start_of_heap, end_of_heap, get_prev, get_next, get_size, take_only,
  take_first, take_last, take_middle, take_block,
}

ruleset words = (arith, read64-write64, read64-write64-Apart)

-- The block of `n` bytes at `a` has left the list: its predecessor `p`, if any, now leads to `v`, its
-- successor `s`, if any, back to `u`, and every word outside the block and these two is kept.
pub record IsUnlinked (mem mem' : Memory) (a n p s v u : ℕ) : Type 0 where
  pub kept :
      (y : ℕ)
      → (y + 8 ≤ a) ⊎ (a + n ≤ y)
      → (p ≢ start_of_heap → Apart (p + 8) y)
      → (s ≢ end_of_heap → Apart s y)
      → read64 mem' y ≡ read64 mem y
  pub next_of_prev : p ≢ start_of_heap → get_next mem' p ≡ v
  pub prev_of_next : s ≢ end_of_heap → get_prev mem' s ≡ u

-- The header of a free block.
pub record IsHeader (mem : Memory) (a p s n : ℕ) : Type 0 where
  pub prev : get_prev mem a ≡ p
  pub next : get_next mem a ≡ s
  pub size : get_size mem a ≡ n

-- The predecessor and the successor lie before and behind the block, as far as there are any.
pub record IsAround (a n p s : ℕ) : Type 0 where
  pub room : 24 ≤ n
  pub above : 0 < a
  pub below : a + n ≤ end_of_heap
  pub before : p ≢ start_of_heap → p + 24 ≤ a
  pub behind : s ≢ end_of_heap → (a + n ≤ s) × (s + 24 ≤ end_of_heap)

ne_of : (a b : ℕ) → (a == b) ≡ false → a ≢ b
ne_of a b h = ground (arith, h)

abbrev pub header : ℕ → ℕ → ℕ → FreeHeader
header p s n = record { prev = p; next = s; size = n }

module _ (h : KernelHeap) (a p s n size : ℕ) (g : IsAround a n p s) (word : size < 2 ^ 64) where
  -- The memory after the last store of `kmalloc`.
  abbrev pub stored : KernelHeap → Memory
  stored h' = write64 a size h'.memory

  abbrev pub Exact : KernelHeap → Type 0
  Exact h' = IsUnlinked h.memory (stored h') a n p s s p

  abbrev pub Split : ℕ → KernelHeap → Type 0
  Split r h' = IsUnlinked h.memory (stored h') a n p s r r × IsHeader (stored h') r p s (a + n - r)

  module _ (r alloc : ℕ) (fits : alloc ≡ n) where
    exact : (n - alloc == 0) ≡ true
    exact = ground arith

    take_only-Exact :
        p ≡ start_of_heap → s ≡ end_of_heap → Exact (take_only (header p s n) r alloc h)
    unfolding take_only
    take_only-Exact first last = rw exact (record {
      kept = λ y out bp bs. grind words;
      next_of_prev = λ ne. absurd (ne first);
      prev_of_next = λ ne. absurd (ne last);
    })

    take_first-Exact :
        p ≡ start_of_heap → s ≢ end_of_heap → Exact (take_first (header p s n) r alloc h)
    unfolding take_first
    take_first-Exact first more =
        let (lo, hi) = g.behind more in
        rw exact (record {
          kept = λ y out bp bs. let bs' = bs more in grind words;
          next_of_prev = λ ne. absurd (ne first);
          prev_of_next = λ ne. grind words;
        })

    take_last-Exact :
        p ≢ start_of_heap → s ≡ end_of_heap → Exact (take_last (header p s n) r alloc h)
    unfolding take_last
    take_last-Exact more last =
        let lo = g.before more in
        rw exact (record {
          kept = λ y out bp bs. let bp' = bp more in grind words;
          next_of_prev = λ ne. grind words;
          prev_of_next = λ ne. absurd (ne last);
        })

    take_middle-Exact :
        p ≢ start_of_heap → s ≢ end_of_heap → Exact (take_middle (header p s n) r alloc h)
    unfolding take_middle
    take_middle-Exact more more' =
        let lo = g.before more in
        let (lo', hi) = g.behind more' in
        rw exact (record {
          kept = λ y out bp bs. let bp' = bp more in let bs' = bs more' in grind words;
          next_of_prev = λ ne. grind words;
          prev_of_next = λ ne. grind words;
        })

  module _ (r alloc : ℕ) (place : r ≡ a + alloc) (low : 8 ≤ alloc) (fits : alloc + 24 ≤ n) where
    split : (n - alloc == 0) ≡ false
    split = ground arith

    take_only-Split :
        p ≡ start_of_heap → s ≡ end_of_heap → Split r (take_only (header p s n) r alloc h)
    unfolding take_only
    take_only-Split first last =
        let hi = g.below in
        rw split (
          record {
            kept = λ y out bp bs. grind words;
            next_of_prev = λ ne. absurd (ne first);
            prev_of_next = λ ne. absurd (ne last);
          },
          record { prev = grind words; next = grind words; size = grind words },
        )

    take_first-Split :
        p ≡ start_of_heap → s ≢ end_of_heap → Split r (take_first (header p s n) r alloc h)
    unfolding take_first
    take_first-Split first more =
        let (lo, hi) = g.behind more in
        rw split (
          record {
            kept = λ y out bp bs. let bs' = bs more in grind words;
            next_of_prev = λ ne. absurd (ne first);
            prev_of_next = λ ne. grind words;
          },
          record { prev = grind words; next = grind words; size = grind words },
        )

    take_last-Split :
        p ≢ start_of_heap → s ≡ end_of_heap → Split r (take_last (header p s n) r alloc h)
    unfolding take_last
    take_last-Split more last =
        let lo = g.before more in
        let hi = g.below in
        rw split (
          record {
            kept = λ y out bp bs. let bp' = bp more in grind words;
            next_of_prev = λ ne. grind words;
            prev_of_next = λ ne. absurd (ne last);
          },
          record { prev = grind words; next = grind words; size = grind words },
        )

    take_middle-Split :
        p ≢ start_of_heap → s ≢ end_of_heap → Split r (take_middle (header p s n) r alloc h)
    unfolding take_middle
    take_middle-Split more more' =
        let lo = g.before more in
        let (lo', hi) = g.behind more' in
        rw split (
          record {
            kept = λ y out bp bs. let bp' = bp more in let bs' = bs more' in grind words;
            next_of_prev = λ ne. grind words;
            prev_of_next = λ ne. grind words;
          },
          record { prev = grind words; next = grind words; size = grind words },
        )

  -- The four cases together.
  pub take_block-Exact :
      (r alloc : ℕ)
      → alloc ≡ n
      → Exact (take_block (header p s n) r alloc h)
        × ((take_block (header p s n) r alloc h).first_free
            ≡ (if p == start_of_heap then (if s == end_of_heap then 0 else s) else h.first_free))
  unfolding take_block
  take_block-Exact r alloc fits = elim (Bool-cases (p == start_of_heap)) [
    | inl e ↦ elim (Bool-cases (s == end_of_heap)) [
      | inl e' ↦
          rw (e, e')
            (
              take_only-Exact r alloc fits ((==_iff p 0).0 e) ((==_iff s end_of_heap).0 e'),
              unfold take_only in rw (exact r alloc fits) refl,
            )
      | inr e' ↦
          rw (e, e')
            (
              take_first-Exact r alloc fits ((==_iff p 0).0 e) (ne_of s end_of_heap e'),
              unfold take_first in rw (exact r alloc fits) refl,
            )
    ]
    | inr e ↦ elim (Bool-cases (s == end_of_heap)) [
      | inl e' ↦
          rw (e, e')
            (
              take_last-Exact r alloc fits (ne_of p 0 e) ((==_iff s end_of_heap).0 e'),
              unfold take_last in rw (exact r alloc fits) refl,
            )
      | inr e' ↦
          rw (e, e')
            (
              take_middle-Exact r alloc fits (ne_of p 0 e) (ne_of s end_of_heap e'),
              unfold take_middle in rw (exact r alloc fits) refl,
            )
    ]
  ]

  pub take_block-Split :
      (r alloc : ℕ)
      → r ≡ a + alloc
      → 8 ≤ alloc
      → alloc + 24 ≤ n
      → Split r (take_block (header p s n) r alloc h)
        × ((take_block (header p s n) r alloc h).first_free
            ≡ (if p == start_of_heap then r else h.first_free))
  unfolding take_block
  take_block-Split r alloc place low fits = elim (Bool-cases (p == start_of_heap)) [
    | inl e ↦ elim (Bool-cases (s == end_of_heap)) [
      | inl e' ↦
          rw (e, e')
            (
              take_only-Split r alloc place low fits ((==_iff p 0).0 e)
                  ((==_iff s end_of_heap).0 e'),
              unfold take_only in rw (split r alloc place low fits) refl,
            )
      | inr e' ↦
          rw (e, e')
            (
              take_first-Split r alloc place low fits ((==_iff p 0).0 e) (ne_of s end_of_heap e'),
              unfold take_first in rw (split r alloc place low fits) refl,
            )
    ]
    | inr e ↦ elim (Bool-cases (s == end_of_heap)) [
      | inl e' ↦
          rw (e, e')
            (
              take_last-Split r alloc place low fits (ne_of p 0 e) ((==_iff s end_of_heap).0 e'),
              unfold take_last in rw (split r alloc place low fits) refl,
            )
      | inr e' ↦
          rw (e, e')
            (
              take_middle-Split r alloc place low fits (ne_of p 0 e) (ne_of s end_of_heap e'),
              unfold take_middle in rw (split r alloc place low fits) refl,
            )
    ]
  ]
