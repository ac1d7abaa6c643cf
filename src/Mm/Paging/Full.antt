-- ===== src/Mm/Paging/Full.antt =====
-- `map_table` (src/mm/paging.c) when no page is left for a new table.
use pell_os.Base.{ℕ, ◌≡◌, refl, true, inl, inr, arith}
use pell_os.Mm.Pages.{Pages, store}
use pell_os.Mm.Pages.Alloc.{IsValid, IsFull, get_next_free_page-Outcome}
use pell_os.Mm.Paging.{slot, map_table}

-- With no page left `map_table` does not fail: for a missing entry it writes 3, a valid entry for a
-- table at physical address 0, and returns 0 as the next table, to which `map_page` then writes.
pub map_table-full :
    (table shift virt_adr : ℕ) (p : Pages)
    → IsValid p
    → IsFull p
    → p.words (slot table shift virt_adr) ≡ 0
    → map_table table shift virt_adr p
      ≡ (0, true, record p { words = store p.words (slot table shift virt_adr) 3 })
unfolding map_table
map_table-full table shift virt_adr p v full missing = elim (get_next_free_page-Outcome p v) [
  | inl (all, e, e') ↦ rw (missing, e, e') refl
  | inr (m, a, v') ↦ absurd (omega (arith, full m a.in_range, a.free_before))
]
