-- ===== src/Fs/Vfs.antt =====
-- The calls above the descriptor table and the ram disk: src/fs/open.c, src/fs/read.c, and the calls
-- of src/syscalls.c that use them. `timer_val` is what `get_timer_val` returns.
pub mod Calls
mod Tests
use pell_os.Base.{
  ℕ, zero, suc, ◌+◌, ◌/◌, ◌%◌, Bool, true, false, Option, none, some, List, [], ◌∷◌, ◌==◌,
  if◌then◌else◌, ◌>>=◌,
}
use pell_os.Base.Int.{ℤ, pos, negsuc}
use pell_os.Fs.Fd.{
  File, FdTable, is_valid_fd, get_file_from_fd, create_fd, delete_fd, init_fd_table,
}
use pell_os.Base.Memory.{Memory, store_le}
use pell_os.Fs.Rdfs.{Partition, open_file, read_file}

-- `strcmp` of two strings is 0.
abbrev pub same_string : List ℕ → List ℕ → Bool
same_string [] [] = true
same_string [] (d ∷ ds) = false
same_string (c ∷ cs) [] = false
same_string (c ∷ cs) (d ∷ ds) = let rest = same_string cs ds in if c == d then rest else false

-- `/dev/timer`
abbrev pub timer_path : List ℕ
timer_path = 47 ∷ 100 ∷ 101 ∷ 118 ∷ 47 ∷ 116 ∷ 105 ∷ 109 ∷ 101 ∷ 114 ∷ []

abbrev pub timer_id : ℕ
timer_id = 255

abbrev pub timer_file : File
timer_file = record { file_id = timer_id; index = 0; flags = 0 }

module _ (p : Partition) (mem : Memory) where
  -- `block` is what the memory that `kmalloc` returned for a new table holds, and `heap` what it
  -- returns while the path is resolved.
  unfoldable pub vfs_open :
      (heap : ℕ → ℕ) → List File → List ℕ → ℕ → Option FdTable → Option (ℤ × FdTable)
  unfolding init_fd_table create_fd open_file
  vfs_open heap block path flags old =
      let t = init_fd_table block old in
      if same_string path timer_path then some (create_fd timer_file t) else (do
        opened ← open_file p mem heap path flags
        some (elim opened [ none ↦ (pos 0, t) | some file ↦ create_fd file t ]))

  -- The file that is read is a copy of the one in the table. The result, and the memory and the table
  -- after.
  unfoldable pub vfs_read :
      (timer_val : ℕ) → ℤ → (buf size : ℕ) → FdTable → Option (ℤ × Memory × FdTable)
  unfolding get_file_from_fd read_file
  vfs_read timer_val fd buf size t = do
    found ← get_file_from_fd fd t
    some (elim found [
      | none ↦ (negsuc 0, mem, t)
      | some file ↦
          let (n, file', mem') = read_file p mem file buf size in
          if file.file_id == timer_id
          then (pos 4, store_le 4 buf timer_val mem, t)
          else (pos n, mem', t)
    ])

  unfoldable pub syscall_read :
      (timer_val : ℕ) → ℤ → (buf size : ℕ) → FdTable → Option (ℤ × Memory × FdTable)
  unfolding is_valid_fd vfs_read
  syscall_read timer_val fd buf size t = do
    valid ← is_valid_fd fd t
    let result = vfs_read timer_val fd buf size t
    if valid
        then (if buf == 0 then some (negsuc 0, mem, t) else result)
        else some (negsuc 0, mem, t)

  -- A null path is `none`.
  unfoldable pub syscall_open :
      (heap : ℕ → ℕ)
      → List File
      → Option (List ℕ)
      → ℕ
      → Option FdTable
      → Option (ℤ × Option FdTable)
  unfolding vfs_open
  syscall_open heap block none flags old = some (negsuc 0, old)
  syscall_open heap block (some path) flags old = do
    (fd, t) ← vfs_open heap block path flags old
    some (fd, some t)

abbrev pub vfs_close : ℤ → FdTable → Option FdTable
vfs_close = delete_fd

unfoldable pub syscall_close : ℤ → FdTable → Option FdTable
syscall_close (negsuc n) t = some t
syscall_close (pos n) t = vfs_close (pos n) t
