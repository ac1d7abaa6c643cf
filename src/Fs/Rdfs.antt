-- ===== src/Fs/Rdfs.antt =====
-- The ram disk (src/fs/rdfs/rdfs.c, include/fs/rdfs/rdfs.h): a partition that stands in memory at
-- `rdfs_start`. Memory is one byte for each address. A C string that the code makes itself is the
-- list of its characters. The heap is a parameter: which addresses the calls of `kmalloc` return, 0 for
-- no block. `none` is an access outside of a block, at a null pointer or past a string, or a loop that
-- does not end.
pub mod Strings
pub mod Walk
pub mod Read
mod Tests
use pell_os.Base.{
  ℕ, zero, suc, ◌+◌, ◌-◌, ◌*◌, ◌/◌, ◌%◌, ◌^◌, Bool, Option, none, some, List, [], ◌∷◌, ◌==◌, ltb,
  if◌then◌else◌, ◌>>=◌, length,
}
use pell_os.Base.Memory.{Memory, read_le}
use pell_os.Fs.Fd.{File}

-- `rdfs_start`, `first_file` and `numFiles`
pub record Partition : Type 0 where
  pub rdfs_start : ℕ
  pub first_file : ℕ
  pub num_files : ℕ

abbrev pub rdfs_magic_number : ℕ
rdfs_magic_number = 0x7DF5

abbrev pub rdfs_file_type_dir : ℕ
rdfs_file_type_dir = 1

abbrev pub rdfs_file_type_file : ℕ
rdfs_file_type_file = 2

-- `stat_t`
pub record Stat : Type 0 where
  pub st_mode : ℕ
  pub st_size : ℕ

abbrev pub s_ifdir : ℕ
s_ifdir = 2 ^ 32

abbrev pub s_ifreg : ℕ
s_ifreg = 2 * 2 ^ 32

-- The sizes of `rdfs_partition_header_t` and `rdfs_file_dir_entry_t`.
abbrev pub header_size : ℕ
header_size = 96

abbrev pub entry_size : ℕ
entry_size = 96

abbrev pub file_directory_size : Memory → ℕ → ℕ
file_directory_size mem start = read_le 8 mem (start + 80)

-- `none` is the result -1.
unfoldable pub rdfs_init : ℕ → Memory → Option Partition
unfolding read_le
rdfs_init initial_offset mem =
    if initial_offset == 0
    then none
    else if read_le 2 mem initial_offset == rdfs_magic_number
    then some (record {
      rdfs_start = initial_offset;
      first_file = initial_offset + header_size;
      num_files = file_directory_size mem initial_offset / entry_size;
    })
    else none

-- The comparison of `strcmp` (src/asm/utils.S) of the string at `a` with the string `b`: the
-- difference of the first two bytes that differ or end a string, as an unsigned byte.
unfoldable pub strcmp : Memory → ℕ → List ℕ → ℕ
strcmp mem a [] = mem a % 256
strcmp mem a (c ∷ b) =
    let rest = strcmp mem (a + 1) b in
    if mem a == 0
    then (256 - c) % 256
    else if c == 0
    then mem a % 256
    else if mem a == c
    then rest
    else (mem a + 256 - c) % 256

-- The characters up to the next `/` or the end, and the path from after the `/` on.
unfoldable pub cut_name : List ℕ → List ℕ × List ℕ
cut_name [] = ([], [])
cut_name (c ∷ path) =
    let (name, rest) = cut_name path in if c == 47 then ([], path) else (c ∷ name, rest)

-- The next name, in the block at `block`, and the path behind it. The counter `i` has 16 bits: with
-- no end of the name among the first 2 ^ 16 characters it starts again at 0, and the loop that looks
-- for the end does not end. Of an empty name `memcpy` copies 8 bytes into a block of one.
unfoldable pub next_filename : (block : ℕ) → List ℕ → Option (List ℕ × List ℕ)
unfolding cut_name
next_filename block path =
    let (name, rest) = cut_name path in
    if block == 0
    then none
    else if length name == 0
    then none
    else if ltb (length name) (2 ^ 16)
    then some (name, rest)
    else none

-- `memcpy` (src/asm/utils.S) of `n` bytes one after the other.
unfoldable pub copy_bytes : (n dest src : ℕ) → Memory → Memory
copy_bytes zero dest src mem = mem
copy_bytes (suc n) dest src mem =
    copy_bytes n (dest + 1) (src + 1) (λ a. if a == dest then mem src else mem a)

-- It goes by words if the size is a multiple of 64, and then copies 8 bytes for the size 0.
unfoldable pub memcpy : (dest src size : ℕ) → Memory → Memory
unfolding copy_bytes
memcpy dest src size mem = copy_bytes (if size == 0 then 8 else size) dest src mem

module _ (p : Partition) (mem : Memory) where
  -- `&first_file[id]` and the fields there
  abbrev pub file_entry : ℕ → ℕ
  file_entry id = p.first_file + entry_size * id

  abbrev pub file_type : ℕ → ℕ
  file_type id = mem (file_entry id + 8)

  abbrev pub filename : ℕ → ℕ
  filename id = file_entry id + 9

  abbrev pub data_block_offset : ℕ → ℕ
  data_block_offset id = read_le 8 mem (file_entry id + 80)

  abbrev pub data_entry_size : ℕ → ℕ
  data_entry_size id = read_le 8 mem (file_entry id + 88)

  -- `DATA_LOCATION`
  abbrev pub data_location : ℕ → ℕ
  data_location id =
      (p.rdfs_start + file_directory_size mem p.rdfs_start + data_block_offset id + header_size)
      % 2 ^ 64

  -- The loop of `rdfs_get_file_list_from_dir_id`: `left` ids from address `a` on.
  unfoldable pub read_ids : (left a : ℕ) → List ℕ
  unfolding read_le
  read_ids zero a = []
  read_ids (suc left) a = read_le 8 mem a ∷ read_ids left (a + 8)

  unfoldable pub directory_ids : ℕ → List ℕ
  unfolding read_ids read_le
  directory_ids dir = read_ids (data_entry_size dir / 8) (data_location dir)

  -- `some none` is the null pointer: the ids, if there are any, are stored before it is looked at.
  unfoldable pub get_file_list_from_dir_id : (block dir : ℕ) → Option (Option (List ℕ))
  unfolding directory_ids read_le
  get_file_list_from_dir_id block dir =
      if block == 0
      then (if data_entry_size dir / 8 == 0 then some none else none)
      else some (some (directory_ids dir))

  -- `none` is the result -1.
  unfoldable pub get_file_id_from_list_and_name : List ℕ → List ℕ → Option ℕ
  unfolding strcmp
  get_file_id_from_list_and_name [] name = none
  get_file_id_from_list_and_name (id ∷ ids) name =
      let rest = get_file_id_from_list_and_name ids name in
      if strcmp mem (filename id) name == 0 then some id else rest

  -- The loop of `rdfs_file_get_id_from_path`, with fuel: `none` is also that the fuel ran out, and
  -- `some none` the result -1. `heap n` is what the call number `n` of `kmalloc` returns.
  module _ (heap : ℕ → ℕ) where
    unfoldable pub resolve : (fuel n : ℕ) → List ℕ → (dir : ℕ) → Option (Option ℕ)
    unfolding next_filename get_file_list_from_dir_id get_file_id_from_list_and_name
    resolve fuel n [] dir = some (some dir)
    resolve zero n (c ∷ path) dir = none
    resolve (suc fuel) n (c ∷ path) dir = do
      (name, rest) ← next_filename (heap n) (c ∷ path)
      file_id_list ← get_file_list_from_dir_id (heap (n + 1)) dir
      elim file_id_list [
        | none ↦ some none
        | some ids ↦ elim (get_file_id_from_list_and_name ids name) [
          | none ↦ some none
          | some id ↦ resolve fuel (n + 2) rest id
        ]
      ]

    -- The first character is skipped, whatever it is; `none` for the empty path, past whose end the
    -- code reads.
    unfoldable pub file_get_id_from_path : List ℕ → Option (Option ℕ)
    unfolding resolve
    file_get_id_from_path [] = none
    file_get_id_from_path (c ∷ path) = resolve (length path) 0 path 0

    -- `rdfs_open_file`: `some none` is the result -1.
    unfoldable pub open_file : List ℕ → ℕ → Option (Option File)
    unfolding file_get_id_from_path
    open_file path flags = do
      id ← file_get_id_from_path path
      some (elim id [
        | none ↦ none
        | some id ↦ some (record { file_id = id; index = 0; flags = flags })
      ])

    -- `rdfs_getattr` on what `st` holds; `some none` is the result -1.
    unfoldable pub getattr : List ℕ → Stat → Option (Option Stat)
    unfolding file_get_id_from_path read_le
    getattr path st = do
      id ← file_get_id_from_path path
      some (elim id [
        | none ↦ none
        | some id ↦ some (record {
          st_mode =
              if file_type id == rdfs_file_type_dir
              then s_ifdir
              else if file_type id == rdfs_file_type_file
              then s_ifreg
              else st.st_mode;
          st_size = data_entry_size id;
        })
      ])

  abbrev pub is_dir : ℕ → Bool
  is_dir id = file_type id == rdfs_file_type_dir

  -- `rdfs_readdir`: `some none` is the null pointer, `block` the block for the list.
  unfoldable pub readdir : (heap : ℕ → ℕ) (block : ℕ) → List ℕ → Option (Option (List ℕ))
  unfolding file_get_id_from_path get_file_list_from_dir_id
  readdir heap block path = do
    id ← file_get_id_from_path heap path
    elim id [
      | none ↦ some none
      | some id ↦ if is_dir id then get_file_list_from_dir_id block id else some none
    ]

  -- `rdfs_read_file`: the number of bytes, the file with its new position, and the memory after.
  unfoldable pub read_file : File → (buf size : ℕ) → ℕ × File × Memory
  unfolding read_le memcpy
  read_file file buf size =
      let remaining = (data_entry_size file.file_id + 2 ^ 64 - file.index) % 2 ^ 64 in
      let n = if ltb remaining size then remaining else size in
      if remaining == 0 then (0, file, mem) else (
        n,
        record file { index = (file.index + n) % 2 ^ 64 },
        memcpy buf (data_location file.file_id + file.index) n mem,
      )
