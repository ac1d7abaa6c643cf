-- ===== src/Fs/Fd.antt =====
-- File descriptors (src/fs/fd.c, include/fs/fd.h, include/fs/file.h): the table of the current task.

pub mod Search
mod Tests
pub mod Create
pub mod Delete
pub mod Destroy
pub mod Init
use mathlib.Core.Option
use pell_os.Base.{
  ℕ, zero, suc, ◌+◌, ◌-◌, ◌*◌, ◌/◌, ◌%◌, ◌^◌, Bool, false, Option, none, some, List, [], ◌∷◌,
  bit_and, bit_or, ltb, leb, ◌==◌, if◌then◌else◌, get_elem?, get_or, set, replicate,
}
use pell_os.Base.Bits.{shl, shr, not32}
use pell_os.Base.Int.{ℤ, pos, negsuc}

abbrev pub file_desc_table_init_size : ℕ
file_desc_table_init_size = 127

-- `file_t`
pub record File : Type 0 where
  pub file_id : ℕ
  pub index : ℕ
  pub flags : ℕ

-- `file_desc_table_t`, when its two pointers are set: the blocks that they point to.
pub record FdTable : Type 0 where
  pub bitmap : List ℕ
  pub file : List File

-- `fd_table.file[fd]`; `none` is an access outside the array.
abbrev pub entry : ℤ → FdTable → Option File
entry (negsuc n) t = none
entry (pos n) t = get_elem? t.file n

-- `none` is an access outside the table.
unfoldable pub is_valid_fd : ℤ → FdTable → Option Bool
is_valid_fd (negsuc n) t = some false
is_valid_fd (pos n) t = Option.map (λ f. ltb 0 f.flags) (entry (pos n) t)

-- The inner `none` is the result -1.
unfoldable pub get_file_from_fd : ℤ → FdTable → Option (Option File)
unfolding is_valid_fd
get_file_from_fd fd t = elim (is_valid_fd fd t) [
  | none ↦ none
  | some valid ↦ if valid then Option.map some (entry fd t) else some none
]

-- The inner loop of `create_fd`: the first clear bit among the `left` bits from `j` on.
unfoldable pub find_bit : ℕ → ℕ → ℕ → Option ℕ
find_bit zero j byte = none
find_bit (suc left) j byte =
    let rest = find_bit left (j + 1) (shr byte 1) in if bit_and byte 1 == 0 then some j else rest

-- The outer loop, from byte `i` on: the byte and the bit that it finds.
unfoldable pub find_fd : List ℕ → ℕ → Option (ℕ × ℕ)
unfolding find_bit
find_fd [] i = none
find_fd (byte ∷ bytes) i =
    let rest = find_fd bytes (i + 1) in
    if byte == 255 then rest else elim (find_bit 8 0 byte) [ none ↦ rest | some j ↦ some (i, j) ]

-- What `create_fd` does with the bit that it found.
unfoldable pub take_fd : File → FdTable → Option (ℕ × ℕ) → ℤ × FdTable
take_fd f t none = (negsuc 0, t)
take_fd f t (some (i, j)) = (
  pos (j + i * 8),
  record {
    bitmap = set t.bitmap i (bit_or (get_or t.bitmap i 0) (shl 1 j));
    file = set t.file (j + i * 8) (record f { flags = 1 });
  },
)

-- A descriptor, or -1.
unfoldable pub create_fd : File → FdTable → ℤ × FdTable
unfolding find_fd take_fd
create_fd f t = take_fd f t (find_fd t.bitmap 0)

abbrev pub no_file : File
no_file = record { file_id = 0; index = 0; flags = 0 }

-- `none` is an access outside the table. (A negative descriptor always makes one.)
unfoldable pub delete_fd : ℤ → FdTable → Option FdTable
delete_fd (negsuc n) t = none
delete_fd (pos n) t = elim (get_elem? t.bitmap (n / 8)) [
  | none ↦ none
  | some byte ↦ elim (get_elem? t.file n) [
    | none ↦ none
    | some f ↦ some (record {
      bitmap = set t.bitmap (n / 8) (bit_and byte (not32 (shl 1 (n % 8))));
      file = set t.file n no_file;
    })
  ]
]

-- `memzero_u8` (src/asm/utils.S) steps by one byte and stores four: it clears 3 bytes more than it
-- is asked to. `init_fd_table` asks for 127 times the size of a pointer.
abbrev pub cleared_bytes : ℕ
cleared_bytes = 8 * file_desc_table_init_size + 3

-- A 64-bit word (little-endian) whose first `n` bytes have been cleared.
abbrev pub clear_low : ℕ → ℕ → ℕ
clear_low n v = if leb 8 n then 0 else v / 2 ^ (8 * n) * 2 ^ (8 * n)

-- Entry `i` of the file array, whose entries are 24 bytes long, after the clearing.
abbrev pub clear_file : ℕ → File → File
clear_file i f = record {
  file_id = clear_low (cleared_bytes - 24 * i) f.file_id;
  index = clear_low (cleared_bytes - (24 * i + 8)) f.index;
  flags = clear_low (cleared_bytes - (24 * i + 16)) f.flags;
}

pub clear_files : ℕ → List File → List File
clear_files i [] = []
clear_files i (f ∷ fs) = clear_file i f ∷ clear_files (i + 1) fs

-- `old` is the table that the task has, if any; `block` is what the memory that `kmalloc` returned
-- for the file array holds.
unfoldable pub init_fd_table : (block : List File) → (old : Option FdTable) → FdTable
unfolding clear_files
init_fd_table block none = record {
  bitmap = replicate (file_desc_table_init_size / 8) 0;
  file = clear_files 0 block;
}
init_fd_table block (some t) = t
