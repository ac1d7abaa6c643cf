-- ===== src/Mm/Paging.antt =====
-- Page tables (src/mm/paging.c, include/mm/paging.h, include/arm/mmu.h) and the pages that a task
-- owns (`mm_t` of include/scheduler/task.h).
pub mod Walk
pub mod Tree
pub mod NewTable
pub mod Leaf
pub mod Grow
pub mod Level
pub mod Directory
pub mod Map
pub mod Fresh
pub mod Filled
pub mod Fault
pub mod CopyWords
pub mod CopyRound
pub mod Copy
pub mod Full
mod Tests
use pell_os.Base.{
  ℕ, zero, suc, [], ◌∷◌, ◌/◌, take, ◌+◌, ◌*◌, ◌-◌, Bool, true, false, Option, none, some, List,
  bit_and, bit_or, ◌==◌, ltb, if◌then◌else◌, ◌>>=◌, set,
}
use pell_os.Base.Bits.{shl, shr}
use pell_os.Mm.Pages.{Pages, page_size, page_shift, table_shift, store, get_next_free_page}

abbrev pub virtual_address_start : ℕ
virtual_address_start = 0xffff_0000_0000_0000

abbrev pub page_mask : ℕ
page_mask = 0xffff_ffff_ffff_f000

abbrev pub ptrs_per_table : ℕ
ptrs_per_table = shl 1 table_shift

abbrev pub pgd_shift : ℕ
pgd_shift = page_shift + 3 * table_shift

abbrev pub pud_shift : ℕ
pud_shift = page_shift + 2 * table_shift

abbrev pub pmd_shift : ℕ
pmd_shift = page_shift + table_shift

abbrev pub mm_type_page_table : ℕ
mm_type_page_table = 3

-- `MM_TYPE_PAGE | (MT_NORMAL_NC << 2) | MM_ACCESS | MM_ACCESS_PERMISSION`
abbrev pub mmu_pte_flags : ℕ
mmu_pte_flags = bit_or (bit_or (bit_or 3 (shl 1 2)) (shl 1 10)) (shl 1 6)

abbrev pub max_process_pages : ℕ
max_process_pages = 16

pub record UserPage : Type 0 where
  pub physical_adr : ℕ
  pub virtual_adr : ℕ

-- `mm_t`. The two arrays have `max_process_pages` entries.
pub record MemoryMap : Type 0 where
  pub pagedirectory : ℕ
  pub userpages_count : ℕ
  pub userpages : List UserPage
  pub kernelpages_count : ℕ
  pub kernelpages : List ℕ

-- The word of a table that `virt_adr` selects.
abbrev pub slot : ℕ → ℕ → ℕ → ℕ
slot table shift virt_adr = table + 8 * bit_and (shr virt_adr shift) (ptrs_per_table - 1)

-- The next table's address, and whether it is new. (Tables are named by their physical addresses.)
unfoldable pub map_table : ℕ → ℕ → ℕ → Pages → ℕ × Bool × Pages
map_table table shift virt_adr p =
    let old = p.words (slot table shift virt_adr) in
    if old == 0
    then (let (next, p') = get_next_free_page p in
        (
          next,
          true,
          record p' {
            words = store p'.words (slot table shift virt_adr) (bit_or next mm_type_page_table);
          },
        ))
    else (bit_and old page_mask, false, p)

unfoldable pub map_table_entry : ℕ → ℕ → ℕ → Pages → Pages
map_table_entry table virt_adr phys_adr p = record p {
  words = store p.words (slot table page_shift virt_adr) (bit_or phys_adr mmu_pte_flags);
}

-- `kernelpages[++kernelpages_count] = page`; `none` is a write past the array.
unfoldable pub push_kernelpage : ℕ → MemoryMap → Option MemoryMap
push_kernelpage page mm =
    let count = mm.kernelpages_count + 1 in
    if ltb count max_process_pages
    then some (record mm { kernelpages_count = count; kernelpages = set mm.kernelpages count page })
    else none

-- `userpages[userpages_count++] = page`; `none` is a write past the array.
unfoldable pub push_userpage : UserPage → MemoryMap → Option MemoryMap
push_userpage page mm =
    let count = mm.userpages_count in
    if ltb count max_process_pages
    then some (record mm { userpages_count = count + 1; userpages = set mm.userpages count page })
    else none

-- A task's memory map with the pages of the machine.
abbrev pub Space : Type 0
Space = MemoryMap × Pages

-- The first part of `map_page`: the page directory, made on first use.
unfoldable pub ensure_directory : Space → Option Space
unfolding push_kernelpage
ensure_directory (mm, p) =
    if mm.pagedirectory == 0
    then (let (page, p') = get_next_free_page p in
        do mm' ← push_kernelpage page (record mm { pagedirectory = page }); some (mm', p'))
    else some (mm, p)

-- One level of `map_page`: a new table is recorded among the task's kernel pages.
unfoldable pub map_level : ℕ → ℕ → ℕ → Space → Option (ℕ × Space)
unfolding map_table push_kernelpage
map_level table shift virt_adr (mm, p) =
    let (next, new_table, p') = map_table table shift virt_adr p in
    if new_table
    then (do mm' ← push_kernelpage next mm; some (next, (mm', p')))
    else some (next, (mm, p'))

unfoldable pub map_page : ℕ → ℕ → Space → Option Space
unfolding ensure_directory map_level map_table_entry push_userpage
map_page virt_adr page s = do
  s₀ ← ensure_directory s
  (pud, s₁) ← map_level s₀.0.pagedirectory pgd_shift virt_adr s₀
  (pmd, s₂) ← map_level pud pud_shift virt_adr s₁
  (pte, s₃) ← map_level pmd pmd_shift virt_adr s₂
  mm ← push_userpage (record { physical_adr = page; virtual_adr = virt_adr }) s₃.0
  some (mm, map_table_entry pte virt_adr page s₃.1)

-- A kernel virtual address, or 0.
unfoldable pub allocate_kernel_page : Pages → ℕ × Pages
allocate_kernel_page p =
    let (page, p') = get_next_free_page p in
    if page == 0 then (0, p') else (page + virtual_address_start, p')

unfoldable pub allocate_user_page : ℕ → Space → Option (ℕ × Space)
unfolding map_page
allocate_user_page virt_adr (mm, p) =
    let (page, p') = get_next_free_page p in
    if page == 0
    then some (0, (mm, p'))
    else (do s ← map_page virt_adr page (mm, p'); some (page + virtual_address_start, s))

-- `memcpy` (src/asm/utils.S) of whole words: `left` words from `src` to `dest`.
unfoldable pub copy_words : (left dest src : ℕ) → (ℕ → ℕ) → ℕ → ℕ
copy_words zero dest src w = w
copy_words (suc left) dest src w = copy_words left (dest + 8) (src + 8) (store w dest (w src))

-- The copy of one user page into the page at the kernel address `page`. The source is read through
-- its user address, which the processor translates by the page directory in force: `translate words
-- directory virt_adr` is the physical address.
unfoldable pub copy_user_page :
    (translate : (ℕ → ℕ) → ℕ → ℕ → ℕ) → (directory virt_adr page : ℕ) → Space → Space
unfolding copy_words
copy_user_page translate directory virt_adr page (mm, p) =
    let src = translate p.words directory virt_adr in
    (mm, record p { words = copy_words (page_size / 8) (page - virtual_address_start) src p.words })

-- The loop of `copy_virtual_memory` over what is left of the source's user pages. `false` is the
-- result -1.
unfoldable pub copy_loop :
    (translate : (ℕ → ℕ) → ℕ → ℕ → ℕ)
    → (directory : ℕ) → List UserPage
    → Space
    → Option (Bool × Space)
unfolding allocate_user_page copy_user_page
copy_loop translate directory [] s = some (true, s)
copy_loop translate directory (u ∷ us) s = do
  (page, s') ← allocate_user_page u.virtual_adr s
  let rest =
      copy_loop translate directory us (copy_user_page translate directory u.virtual_adr page s')
  if page == 0 then some (false, s') else rest

unfoldable pub copy_virtual_memory :
    (translate : (ℕ → ℕ) → ℕ → ℕ → ℕ) → (src : MemoryMap) → Space → Option (Bool × Space)
unfolding copy_loop
copy_virtual_memory translate src s =
    copy_loop translate src.pagedirectory (take src.userpages_count src.userpages) s

-- `do_mem_abort`: a translation fault gets a fresh page; `false` is the result -1.
unfoldable pub do_mem_abort : (addr esr : ℕ) → Space → Option (Bool × Space)
unfolding map_page
do_mem_abort addr esr (mm, p) =
    if bit_and (bit_and esr 63) 60 == 4
    then (let (page, p') = get_next_free_page p in
        if page == 0
        then some (false, (mm, p'))
        else (do s ← map_page (bit_and addr page_mask) page (mm, p'); some (true, s)))
    else some (false, (mm, p))
