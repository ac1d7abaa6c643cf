-- ===== src/Fs/Vfs/Tests.antt =====
-- Opening and reading (src/fs/open.c, src/fs/read.c, src/syscalls.c) on an empty ram disk.
use pell_os.Base.{
  ℕ, zero, ◌/◌, ◌≡◌, ◌≢◌, ◌⊎◌, refl, some, List, [], ◌∷◌, arith, All-replicate, replicate, ap,
  get_or-replicate,
}
use pell_os.Base.Int.{ℤ, pos, negsuc}
use pell_os.Fs.Fd.{FdTable, no_file, create_fd}
use pell_os.Fs.Fd.Search.{IsByte}
use pell_os.Fs.Fd.Create.{IsTable}
use pell_os.Base.Memory.{Memory}
use pell_os.Fs.Rdfs.{Partition}
use pell_os.Fs.Rdfs.Walk.{Reaches}
use pell_os.Fs.Vfs.{vfs_open}
use pell_os.Fs.Vfs.Calls.{Opened, from_start, read_each, vfs_open-Reaches, syscall_read-create_fd}

abbrev empty_disk : Partition
empty_disk = record { rdfs_start = 4096; first_file = 4192; num_files = 1 }

abbrev empty_memory : Memory
empty_memory a = 0

abbrev new_table : FdTable
new_table = record { bitmap = replicate 15 0; file = replicate 127 no_file }

new_table-IsTable : IsTable new_table
new_table-IsTable = record {
  bytes = All-replicate IsByte 15 0 (omega arith);
  bitmap_size = refl;
  file_size = refl;
  unused = λ n hn free. ap (λ f. f.flags) (get_or-replicate 127 n no_file);
  open_file = λ n hn mark. absurd (ground (arith, mark, get_or-replicate 15 (n / 8) (zero)));
}

abbrev some_path : List ℕ
some_path = 97 ∷ []

-- Every block is at 8192.
abbrev blocks : ℕ → ℕ
blocks n = 8192

vfs_open-Reaches_example :
    ((id : ℕ) × Reaches empty_disk empty_memory 0 (some_path ∷ []) id
      × (fd : ℤ) × (t' : FdTable) × (vfs_open empty_disk empty_memory blocks []
            (47 ∷ some_path)
            0
            (some new_table)
          ≡ some (fd, t'))
      × Opened id 0 new_table (fd, t'))
    ⊎ (((id : ℕ) → ¬ Reaches empty_disk empty_memory 0 (some_path ∷ []) id)
        × (vfs_open empty_disk empty_memory blocks [] (47 ∷ some_path) 0 (some new_table)
            ≡ some (pos 0, new_table)))
vfs_open-Reaches_example =
    vfs_open-Reaches empty_disk empty_memory blocks [] 47 some_path 0 new_table (λ a. omega arith)
      (λ n. omega arith) new_table-IsTable ((omega arith, omega arith), tt)
      ((omega arith, omega arith), tt) refl

first_found : (create_fd (record { file_id = 1; index = 0; flags = 0 }) new_table).0 ≢ negsuc 0
unfolding create_fd
first_found = λ e. cc

-- Two reads of 16 bytes.
abbrev two_reads : List (ℕ × ℕ × ℕ)
two_reads = (77, 9000, 16) ∷ (78, 9100, 16) ∷ []

syscall_read-create_fd_example :
    let (fd, t') = create_fd (record { file_id = 1; index = 0; flags = 0 }) new_table in
    let (ns, mem') =
      from_start empty_disk (record { file_id = 1; index = 0; flags = 1 }) two_reads empty_memory in
    read_each empty_disk fd two_reads empty_memory t' ≡ some (ns, mem', t')
syscall_read-create_fd_example =
    syscall_read-create_fd empty_disk empty_memory new_table 1 0 two_reads new_table-IsTable
      first_found (omega arith) (omega arith, (omega arith, tt))
