-- ===== src/Fs/Rdfs/Tests.antt =====
-- The ram disk (src/fs/rdfs/rdfs.c) with one file, `a`, of three bytes.
use pell_os.Base.{ℕ, ◌<◌, ◌≡◌, inr, refl, some, [], ◌∷◌, arith, ◌==◌, if◌then◌else◌}
use pell_os.Fs.Fd.{File}
use pell_os.Base.Memory.{Memory, read_le}
use pell_os.Fs.Rdfs.{Partition, rdfs_init, file_get_id_from_path, read_file}
use pell_os.Fs.Rdfs.Walk.{Resolved, file_get_id_from_path-Reaches}
use pell_os.Fs.Rdfs.Read.{IsRead, count, read_file-IsRead}

abbrev some_partition : Partition
some_partition = record { rdfs_start = 4096; first_file = 4192; num_files = 2 }

-- The size of the file directory, the root's entry, the entry of `a`, the root's list, and the bytes
-- of `a`.
abbrev some_memory : Memory
some_memory a =
    if a == 4096
    then 0xF5
    else if a == 4097
    then 0x7D
    else if a == 4176
    then 192
    else if a == 4200
    then 1
    else if a == 4280
    then 8
    else if a == 4288
    then 1
    else if a == 4296
    then 2
    else if a == 4297
    then 97
    else if a == 4368
    then 8
    else if a == 4376
    then 3
    else if a == 4384
    then 1
    else if a == 4392
    then 120
    else if a == 4393
    then 121
    else if a == 4394
    then 122
    else 0

some_memory-bytes : (a : ℕ) → some_memory a < 256
some_memory-bytes a = ground arith

found_partition : rdfs_init 4096 some_memory ≡ some some_partition
unfolding rdfs_init read_le
found_partition = refl

-- Every block is at 8192.
abbrev blocks : ℕ → ℕ
blocks n = 8192

found_file : file_get_id_from_path some_partition some_memory blocks (47 ∷ 97 ∷ []) ≡ some (some 1)
unfolding file_get_id_from_path
found_file = refl

file_get_id_from_path-Reaches_example :
    Resolved some_partition some_memory some_memory-bytes
      (file_get_id_from_path some_partition some_memory blocks (47 ∷ 97 ∷ []))
      0
      ((97 ∷ []) ∷ [])
file_get_id_from_path-Reaches_example =
    file_get_id_from_path-Reaches some_partition some_memory some_memory-bytes blocks
      (λ n. omega arith) 47 (97 ∷ []) ((omega arith, omega arith), tt)
      ((omega arith, omega arith), tt)

-- The second byte and the one after it.
abbrev open_file : File
open_file = record { file_id = 1; index = 1; flags = 1 }

read_file-IsRead_example :
    let (n, file', mem') = read_file some_partition some_memory open_file 9000 16 in
    (n ≡ count some_partition some_memory open_file 9000 16)
    × IsRead some_partition some_memory open_file 9000 n file' mem'
unfolding read_le
read_file-IsRead_example =
    read_file-IsRead some_partition some_memory open_file 9000 16 some_memory-bytes (omega arith)
      (omega arith) (inr (omega arith))
