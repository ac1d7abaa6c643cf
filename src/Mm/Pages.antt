-- ===== src/Mm/Pages.antt =====
-- The page allocator (src/mm/mm.c, include/mm/mm.h), in the configuration of include/config.h,
-- where `USE_BITMAP` is defined; `ByteMap` is the other variant. Memory is the 64-bit words at
-- physical addresses, which the kernel reaches through `VIRTUAL_ADDRESS_START`.

pub mod Scan
mod Tests
pub mod Zero
pub mod Alloc
pub mod Free
pub mod ByteMap
pub mod Count
use pell_os.Base.{
  ℕ, zero, suc, ◌+◌, ◌-◌, ◌*◌, ◌/◌, ◌%◌, ◌^◌, Option, none, some, List, [], ◌∷◌, bit_and, bit_or,
  ◌==◌, if◌then◌else◌, get_or, set,
}
use pell_os.Base.Bits.{shl, shr, not32}

abbrev pub page_shift : ℕ
page_shift = 12

abbrev pub page_size : ℕ
page_size = shl 1 page_shift

abbrev pub table_shift : ℕ
table_shift = 9

abbrev pub section_size : ℕ
section_size = shl 1 (page_shift + table_shift)

abbrev pub low_memory : ℕ
low_memory = 2 * section_size

abbrev pub device_base_phys : ℕ
device_base_phys = 0xFE00_0000

abbrev pub mm_available_page_min : ℕ
mm_available_page_min = shl 1 22

abbrev pub mm_num_of_pages : ℕ
mm_num_of_pages = (device_base_phys - mm_available_page_min) / page_size

-- `sizeof(char)`
abbrev pub size_of_char : ℕ
size_of_char = 1

abbrev pub uint8_mask : ℕ
uint8_mask = 255

pub record Pages : Type 0 where
  pub page_bitmap : List ℕ
  pub words : ℕ → ℕ

-- One 64-bit store.
unfoldable pub store : (ℕ → ℕ) → ℕ → ℕ → ℕ → ℕ
store w a v b = if b == a then v else w b

-- `memzero` (src/asm/utils.S): it stores zero words until `size` is used up, and at least one.
pub memzero_loop : ℕ → ℕ → (ℕ → ℕ) → ℕ → ℕ
memzero_loop zero start w = w
memzero_loop (suc n) start w = memzero_loop n (start + 8) (store w start 0)

unfoldable pub memzero : ℕ → ℕ → (ℕ → ℕ) → ℕ → ℕ
unfolding memzero_loop store
memzero start size w = memzero_loop (if (size + 7) / 8 == 0 then 1 else (size + 7) / 8) start w

-- The inner loop of `get_next_free_page`: the first clear bit among the `left` bits from `j` on.
unfoldable pub scan_bits : ℕ → ℕ → ℕ → Option ℕ
scan_bits zero j byte = none
scan_bits (suc left) j byte =
    let rest = scan_bits left (j + 1) (shr byte 1) in if bit_and byte 1 == 0 then some j else rest

-- The outer loop, from byte `i` on: the byte and the bit that it finds.
unfoldable pub scan_bytes : List ℕ → ℕ → Option (ℕ × ℕ)
unfolding scan_bits
scan_bytes [] i = none
scan_bytes (byte ∷ bytes) i =
    let rest = scan_bytes bytes (i + 1) in
    if bit_and byte uint8_mask == uint8_mask
    then rest
    else elim (scan_bits size_of_char 0 byte) [ none ↦ rest | some j ↦ some (i, j) ]

abbrev pub page_at : ℕ → ℕ → ℕ
page_at i j = low_memory + (page_size * (i * size_of_char) + j)

-- What `get_next_free_page` does with the bit that it found: the page's physical address, or 0.
unfoldable pub take_page : Pages → Option (ℕ × ℕ) → ℕ × Pages
take_page p none = (0, p)
take_page p (some (i, j)) = (
  page_at i j,
  record p {
    page_bitmap = set p.page_bitmap i (bit_or (get_or p.page_bitmap i 0) (shl 1 j));
    words = memzero (page_at i j) page_size p.words;
  },
)

unfoldable pub get_next_free_page : Pages → ℕ × Pages
unfolding scan_bytes take_page
get_next_free_page p = take_page p (scan_bytes p.page_bitmap 0)

-- The subtraction is of `uint64_t`, and the index is an `uint32_t`.
abbrev pub page_index : ℕ → ℕ
page_index ptr = (ptr + 2 ^ 64 - mm_available_page_min) % 2 ^ 64 / page_size % 2 ^ 32

unfoldable pub free_page : ℕ → Pages → Pages
free_page ptr p =
    let idx = page_index ptr in
    let i = idx / 8 in
    let j = idx % 8 in
    record p {
      page_bitmap = set p.page_bitmap i (bit_and (get_or p.page_bitmap i 0) (not32 (shl 1 j)));
    }
