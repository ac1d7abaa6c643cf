-- ===== src/Elf/Tests.antt =====
-- The loader (src/lib/elf/elf.c) on a file of 136 bytes in the first page.
use pell_os.Base.{
  ℕ, ◌+◌, ◌-◌, ◌*◌, ◌/◌, ◌≡◌, ◌⊎◌, refl, arith, true, false, some, [], ◌∷◌, replicate, ◌==◌,
  if◌then◌else◌,
}
use pell_os.Base.Memory.{read_le}
use pell_os.Base.WordBytes.{load_byte, byte_of}
use pell_os.Mm.Pages.{Pages, low_memory}
use pell_os.Mm.Pages.Alloc.{IsValid}
use pell_os.Mm.Pages.Count.{free_pages}
use pell_os.Mm.Paging.{virtual_address_start}
use pell_os.Mm.Paging.Grow.{HasRoom}
use pell_os.Kernel.{Kernel, init_task}
use pell_os.Elf.{elf_load, kernel_bytes, e_entry, program}
use pell_os.Elf.Load.{Moved, IsElf, AreData, program_of, size_of, elf_load-Moved}
use pell_os.Scheduler.Fork.Parent.{no_tables, IsData-no_tables, empty-IsSpace}

-- The header, a program header at 64 that says 16 bytes at 120, and these.
abbrev file_word : ℕ → ℕ
file_word i =
    if i == 0
    then 0x0001_0102_464C_457F
    else (if i == 2
        then 0x00B7_0002
        else (if i == 3
            then 8
            else (if i == 4
                then 64
                else (if i == 9
                    then 120
                    else (if i == 12 then 16 else (if i == 15 then 0xD503_201F else 0))))))

abbrev loaded_pages : Pages
loaded_pages = record {
  page_bitmap = 1 ∷ replicate 15 0;
  words = λ a. file_word ((a - low_memory) / 8);
}

abbrev one_task : Kernel
one_task = record {
  tasks = λ a. record init_task { flags = 0 };
  task_array = 100 ∷ replicate 63 0;
  current = 100;
  n_tasks = 1;
  timer_arr = [];
  current_tick = 0;
  pages = loaded_pages;
}

abbrev file : ℕ
file = low_memory + virtual_address_start

loaded_pages-IsValid : IsValid loaded_pages
loaded_pages-IsValid = omega arith

room : HasRoom 5 (init_task.mm, loaded_pages)
unfolding free_pages
room = record { entries = omega arith; pages = omega arith }

size_16 : size_of one_task file ≡ 16
unfolding read_le load_byte byte_of
size_16 = refl

program_120 : program (kernel_bytes one_task) file ≡ file + 120
unfolding read_le load_byte byte_of
program_120 = refl

entry_8 : e_entry (kernel_bytes one_task) file ≡ 8
unfolding read_le load_byte byte_of
entry_8 = refl

file-IsElf : IsElf one_task file
unfolding read_le load_byte byte_of
file-IsElf = ((refl, refl, refl, refl), refl, refl)

source : AreData no_tables loaded_pages (program_of one_task file) (size_of one_task file)
source i lt =
    let here : (program_of one_task file + i) / 4096 * 4096 ≡ low_memory =
      omega (arith, program_120, size_16, lt) in
    IsData-no_tables loaded_pages _ (0, here, omega arith, refl)

elf_load-Moved_example :
    (IsElf one_task file
      × (k' : Kernel) × (elf_load file one_task ≡ some (true, k'))
      × Moved no_tables
          (program_of one_task file)
          (size_of one_task file)
          (e_entry (kernel_bytes one_task) file)
          100
          one_task
          k')
    ⊎ ((¬ IsElf one_task file) × (elf_load file one_task ≡ some (false, one_task)))
elf_load-Moved_example =
    elf_load-Moved file no_tables one_task (empty-IsSpace loaded_pages loaded_pages-IsValid) room
      (omega arith) (omega (arith, program_120)) source (omega (arith, size_16))
      (omega (arith, size_16))
