-- ===== src/Fs/Fd/Tests.antt =====
-- The descriptor table (src/fs/fd.c) at concrete tables.
use pell_os.Base.{
  ℕ, zero, ◌≡◌, ◌≢◌, refl, some, arith, replicate, ap, ◌/◌, false, All-replicate, get_or-replicate,
  get_or,
}
use pell_os.Base.Int.{pos, negsuc}
use pell_os.Fs.Fd.{File, FdTable, no_file, is_valid_fd, get_file_from_fd, create_fd, delete_fd}
use pell_os.Fs.Fd.Search.{IsByte, in_use}
use pell_os.Fs.Fd.Create.{IsTable, Outcome, create_fd-Outcome}
use pell_os.Fs.Fd.Delete.{Deleted, delete_fd-Deleted, delete_fd-create_fd}

abbrev new_table : FdTable
new_table = record { bitmap = replicate 15 0; file = replicate 127 no_file }

abbrev some_file : File
some_file = record { file_id = 3; index = 0; flags = 0 }

new_table-IsTable : IsTable new_table
new_table-IsTable = record {
  bytes = All-replicate IsByte 15 0 (omega arith);
  bitmap_size = refl;
  file_size = refl;
  unused = λ n hn free. ap (λ f. f.flags) (get_or-replicate 127 n no_file);
  open_file = λ n hn mark. absurd (ground (arith, mark, get_or-replicate 15 (n / 8) (zero)));
}

-- The first two descriptors are 0 and 1.
first_two :
    let (fd, t) = create_fd some_file new_table in
    (fd ≡ pos 0) × ((create_fd some_file t).0 ≡ pos 1)
unfolding create_fd
first_two = (refl, refl)

create_fd-Outcome_example : Outcome some_file new_table (create_fd some_file new_table)
create_fd-Outcome_example = create_fd-Outcome some_file new_table new_table-IsTable

first_found : (create_fd some_file new_table).0 ≢ negsuc 0
unfolding create_fd
first_found = λ e. cc

delete_fd-create_fd_example :
    let (fd, t₁) = create_fd some_file new_table in
    (get_file_from_fd fd t₁ ≡ some (some (record some_file { flags = 1 })))
    × ((t₂ : FdTable) × (delete_fd fd t₁ ≡ some t₂)
        × ((m : ℕ) → in_use t₂.bitmap m ≡ in_use new_table.bitmap m)
        × ((m : ℕ) → pos m ≢ fd → get_or t₂.file m no_file ≡ get_or new_table.file m no_file))
delete_fd-create_fd_example = delete_fd-create_fd some_file new_table new_table-IsTable first_found

delete_fd-Deleted_example :
    (t' : FdTable) × (delete_fd (pos 9) new_table ≡ some t')
    × Deleted new_table 9 t'
    × IsTable t'
    × (is_valid_fd (pos 9) t' ≡ some false)
delete_fd-Deleted_example = delete_fd-Deleted new_table 9 new_table-IsTable (omega arith)
