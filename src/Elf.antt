-- ===== src/Elf.antt =====
-- The loader of programs: `elf_load` (src/lib/elf/elf.c, include/lib/elf/elf.h) and
-- `move_to_userspace` (src/scheduler/task.c).
pub mod Load
mod Tests
use pell_os.Base.{
  ℕ, zero, suc, ◌+◌, ◌-◌, ◌*◌, ◌%◌, ◌^◌, Bool, true, false, Option, some, List, [], ◌∷◌, ◌==◌,
  if◌then◌else◌, ◌>>=◌,
}
use pell_os.Base.Memory.{Memory, read_le}
use pell_os.Base.WordBytes.{load_byte, copy_word_bytes}
use pell_os.Mm.Pages.{page_size}
use pell_os.Mm.Paging.{virtual_address_start, allocate_user_page}
use pell_os.Kernel.{Kernel, write_task}

abbrev pub elf_magic_number : List ℕ
elf_magic_number = 0x7F ∷ 0x45 ∷ 0x4C ∷ 0x46 ∷ []

abbrev pub elf_word_len_64 : ℕ
elf_word_len_64 = 2

abbrev pub elf_machine_aarch64 : ℕ
elf_machine_aarch64 = 0xB7

abbrev pub psr_mode_el0t : ℕ
psr_mode_el0t = 0

-- The byte at a kernel address.
abbrev pub kernel_bytes : Kernel → Memory
kernel_bytes k a = load_byte k.pages.words (a - virtual_address_start)

-- The fields of `elf_header_t` that are read.
module _ (mem : Memory) (header : ℕ) where
  abbrev pub word_len : ℕ
  word_len = mem (header + 4)

  abbrev pub e_machine : ℕ
  e_machine = read_le 2 mem (header + 18)

  abbrev pub e_entry : ℕ
  e_entry = read_le 8 mem (header + 24)

  abbrev pub e_phoff : ℕ
  e_phoff = read_le 8 mem (header + 32)

  -- The first `elf_program_header_t`, and its fields that are read.
  abbrev pub program_header : ℕ
  program_header = (header + e_phoff) % 2 ^ 64

  abbrev pub p_offset : ℕ
  p_offset = read_le 8 mem (program_header + 8)

  abbrev pub p_filesz : ℕ
  p_filesz = read_le 8 mem (program_header + 32)

  abbrev pub program : ℕ
  program = (header + p_offset) % 2 ^ 64

  -- The loop over what is left of `mag`.
  unfoldable pub magic_matches : ℕ → List ℕ → Bool
  magic_matches i [] = true
  magic_matches i (m ∷ ms) =
      let rest = magic_matches (i + 1) ms in if mem (header + i) == m then rest else false

-- `memcpy` (src/asm/utils.S) copies 8 bytes for the size 0.
abbrev pub copied_size : ℕ → ℕ
copied_size size = if size == 0 then 8 else size

-- `move_to_userspace`. `false` is the result -1, `none` a write past the lists of pages.
unfoldable pub move_to_userspace : (start size pc task : ℕ) → Kernel → Option (Bool × Kernel)
unfolding allocate_user_page copy_word_bytes write_task
move_to_userspace start size pc task k = do
  let t = k.tasks task
  let regs = record t.pt_regs { pc = pc; pstate = psr_mode_el0t; sp = 2 * page_size }
  (code_page, (mm, p)) ← allocate_user_page 0 (t.mm, k.pages)
  let k' = record k {
    tasks = write_task k.tasks task (record t { pt_regs = regs; mm = mm });
    pages = p;
  }
  let dest = code_page - virtual_address_start
  let src = start - virtual_address_start
  let words = copy_word_bytes (copied_size size) dest src p.words
  some (
      if code_page == 0
      then (false, k')
      else (true, record k' { pages = record p { words = words } }))

-- `elf_load`, for the current task.
unfoldable pub elf_load : (header : ℕ) → Kernel → Option (Bool × Kernel)
unfolding magic_matches move_to_userspace
elf_load header k =
    let mem = kernel_bytes k in
    let moved =
      move_to_userspace (program mem header) (p_filesz mem header) (e_entry mem header) k.current
        k in
    if magic_matches mem header 0 elf_magic_number
    then (if e_machine mem header == elf_machine_aarch64
        then (if word_len mem header == elf_word_len_64 then moved else some (false, k))
        else some (false, k))
    else some (false, k)
