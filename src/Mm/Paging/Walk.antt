-- ===== src/Mm/Paging/Walk.antt =====
-- How the processor walks the page tables that src/mm/paging.c makes: a table is a page of 512
-- words, and each level takes nine bits of the virtual address to select one.
use pell_os.Base.{
  ℕ, zero, suc, ◌+◌, ◌*◌, ◌/◌, ◌%◌, ◌^◌, ◌<◌, ◌≡◌, refl, ap, ◌∙◌, arith, ◌==◌, if◌then◌else◌, false,
  bit_and, bit_or,
}
use pell_os.Base.Bits.{shr}
use pell_os.Base.Masks.{bit_and-low, bit_and-high, bit_or-low}
use pell_os.Mm.Pages.{page_shift, table_shift}
use pell_os.Mm.Paging.{slot, page_mask, mm_type_page_table, mmu_pte_flags}

-- The tables are numbered from 0, the one that holds pages, up to 3, the page directory.
abbrev pub shift_at : ℕ → ℕ
shift_at d = page_shift + d * table_shift

abbrev pub index : (d virt_adr : ℕ) → ℕ
index d virt_adr = virt_adr / 2 ^ shift_at d % 512

-- The address in an entry: bits 12 to 47.
abbrev pub target : ℕ → ℕ
target entry = entry % 2 ^ 48 / 4096 * 4096

-- The entry that a walk from `table`, of level `d`, ends at, or 0 where an entry is missing.
unfoldable pub walk : (words : ℕ → ℕ) → (d table virt_adr : ℕ) → ℕ
walk words zero table virt_adr = words (table + 8 * index zero virt_adr)
walk words (suc d) table virt_adr =
    let entry = words (table + 8 * index (suc d) virt_adr) in
    let rest = walk words d (target entry) virt_adr in if entry == 0 then 0 else rest

-- The physical address, for an entry that is there.
abbrev pub physical : (entry virt_adr : ℕ) → ℕ
physical entry virt_adr = target entry + virt_adr % 4096

pub slot-index :
    (table d virt_adr : ℕ) → slot table (shift_at d) virt_adr ≡ table + 8 * index d virt_adr
slot-index table d virt_adr =
    let x = shr virt_adr (shift_at d) in
    let split : x ≡ x / 512 * 2 ^ 9 + x % 512 = omega arith in
    ap (λ y. table + 8 * y)
      (ap (λ y. bit_and y 511) split ∙ bit_and-low 9 (x / 512) (x % 512) (omega arith))

-- A page's address.
abbrev pub IsAligned : ℕ → Type 0
IsAligned a = (a % 4096 ≡ 0) × (a < 2 ^ 48)

-- The entry that `map_table` makes, and what it reads back from it.
pub table_entry : (a : ℕ) → IsAligned a → bit_or a mm_type_page_table ≡ a + 3
table_entry a h =
    let e : a ≡ a / 4096 * 2 ^ 12 = omega arith in
    ap (λ y. bit_or y 3) e ∙ bit_or-low 12 (a / 4096) 3 (omega arith) ∙ omega arith

pub page_entry : (a : ℕ) → IsAligned a → bit_or a mmu_pte_flags ≡ a + 0x447
page_entry a h =
    let e : a ≡ a / 4096 * 2 ^ 12 = omega arith in
    ap (λ y. bit_or y 0x447) e ∙ bit_or-low 12 (a / 4096) 0x447 (omega arith) ∙ omega arith

pub masked_entry : (a : ℕ) → IsAligned a → bit_and (a + 3) page_mask ≡ a
masked_entry a h =
    let e : a + 3 ≡ a / 4096 * 2 ^ 12 + 3 = omega arith in
    ap (λ y. bit_and y page_mask) e
    ∙ bit_and-high 12 52 (a / 4096) 3 (omega arith) (omega arith)
    ∙ omega arith

pub target-entry : (a r : ℕ) → IsAligned a → r < 4096 → target (a + r) ≡ a
target-entry a r h lt = omega arith

pub walk-zeros :
    (w : ℕ → ℕ) (d n virt_adr : ℕ)
    → ((k : ℕ) → k < 512 → w (n + 8 * k) ≡ 0)
    → walk w d n virt_adr ≡ 0
unfolding walk
walk-zeros w zero n v zeros = zeros (index 0 v) (omega arith)
walk-zeros w (suc d) n v zeros = rw (zeros (index (suc d) v) (omega arith)) refl

pub walk-missing :
    (w : ℕ → ℕ) (d t virt_adr : ℕ)
    → w (t + 8 * index (suc d) virt_adr) ≡ 0
    → walk w (suc d) t virt_adr ≡ 0
unfolding walk
walk-missing w d t v e = rw e refl

pub walk-entry :
    (w : ℕ → ℕ) (d t n virt_adr : ℕ)
    → IsAligned n
    → w (t + 8 * index (suc d) virt_adr) ≡ n + 3
    → walk w (suc d) t virt_adr ≡ walk w d n virt_adr
unfolding walk
walk-entry w d t n v h e =
    let there : (n + 3 == 0) ≡ false = ground arith in
    rw (e, there, target-entry n 3 h (omega arith)) refl
