-- ===== src/Elf/Load.antt =====
-- `elf_load` (src/lib/elf/elf.c): the program is at address 0 of its task.
use pell_os.Base.{
  ℕ, ◌+◌, ◌-◌, ◌*◌, ◌/◌, ◌%◌, ◌^◌, ◌<◌, ◌≤◌, ◌≡◌, ◌≢◌, ◌↔◌, ◌⊎◌, inl, inr, refl, sym, ap, ◌∙◌,
  arith, Bool, true, false, some, ◌==◌, ==_iff, if◌then◌else◌, Bool-cases, ltb, leb, ltb→lt,
}
use mathlib.Core.Path.{subst}
use pell_os.Base.Memory.{Memory}
use pell_os.Base.WordBytes.{load_byte, copy_word_bytes, copy_word_bytes-outside, load_byte-copied}
use pell_os.Mm.Pages.{Pages, page_size, get_next_free_page}
use pell_os.Mm.Pages.Scan.{used}
use pell_os.Mm.Pages.Alloc.{page_address}
use pell_os.Mm.Paging.{MemoryMap, map_page, max_process_pages, virtual_address_start}
use pell_os.Mm.Paging.Walk.{IsAligned, physical}
use pell_os.Mm.Paging.Tree.{Label, IsData, SameWords}
use pell_os.Mm.Paging.Grow.{HasRoom}
use pell_os.Mm.Paging.Directory.{lookup, IsSpace}
use pell_os.Mm.Paging.Fresh.{Fresh, map_page-Fresh, allocate_user_page_lem}
use pell_os.Mm.Paging.Filled.{
  old_page, new-IsAligned, filled, filled-IsSpace, lookup-filled, kept-filled,
}
use pell_os.Kernel.{Kernel, Task, write_task, write_task_self, write_task-ne}
use pell_os.Elf.{
  copied_size, move_to_userspace, elf_load, kernel_bytes, magic_matches, elf_magic_number,
  e_machine, e_entry, word_len, program, p_filesz, elf_machine_aarch64, elf_word_len_64,
  psr_mode_el0t,
}

-- The pages that hold `size` bytes from `start` on are in use and are no tables.
abbrev pub AreData : Label → Pages → (start size : ℕ) → Type 0
AreData label p start size = (i : ℕ) → i < size → IsData label p ((start + i) / 4096 * 4096)

-- The task `task` of `k'` has the `size` bytes from `start` on at its address 0, in a page that was
-- free; its other addresses are translated as before, the pages in use that are no tables of it are
-- kept, and so are the other tasks. It goes on at `pc`, in user mode and with its stack below 0x2000.
pub record Moved (label : Label) (start size pc task : ℕ) (k k' : Kernel) : Type 0 where
  pub number : ℕ
  pub labels : Label
  pub free_before : used k.pages.page_bitmap number ≡ 0
  pub valid : IsSpace labels ((k'.tasks task).mm, k'.pages)
  pub found : physical (lookup ((k'.tasks task).mm, k'.pages) 0) 0 ≡ page_address number
  pub bytes :
      (i : ℕ)
      → i < size
      → load_byte k'.pages.words (page_address number + i) ≡ load_byte k.pages.words (start + i)
  pub others :
      (va : ℕ)
      → va / 4096 % 2 ^ 36 ≢ 0
      → lookup ((k'.tasks task).mm, k'.pages) va ≡ lookup ((k.tasks task).mm, k.pages) va
  pub kept :
      (t : ℕ)
      → IsData label k.pages t
      → IsData labels k'.pages t × SameWords k.pages.words k'.pages.words t
  pub tasks : (p : ℕ) → p ≢ task → k'.tasks p ≡ k.tasks p
  pub goes_on : (k'.tasks task).pt_regs.pc ≡ pc
  pub mode : (k'.tasks task).pt_regs.pstate ≡ psr_mode_el0t
  pub stack : (k'.tasks task).pt_regs.sp ≡ 0x2000

-- A byte of a page whose words are kept.
load_byte-kept :
    (w w' : ℕ → ℕ) (a : ℕ) → SameWords w w' (a / 4096 * 4096) → load_byte w' a ≡ load_byte w a
unfolding load_byte
load_byte-kept w w' a same =
    let e : a / 8 * 8 ≡ a / 4096 * 4096 + 8 * (a % 4096 / 8) = omega arith in
    rw (e, same (a % 4096 / 8) (omega arith)) refl

module _ (start size pc task : ℕ) (label : Label) (k : Kernel)
    (v : IsSpace label ((k.tasks task).mm, k.pages)) (room : HasRoom 5 ((k.tasks task).mm, k.pages))
    (few : (k.tasks task).mm.userpages_count < max_process_pages)
    (source : AreData label k.pages start size) (some_bytes : 0 < size) (fits : size ≤ 4096) where
  abbrev mm : MemoryMap
  mm = (k.tasks task).mm

  abbrev page : ℕ
  page = (get_next_free_page k.pages).0

  f : Fresh label 0 0 (mm, k.pages) page (map_page 0 page (mm, (get_next_free_page k.pages).1))
  f = map_page-Fresh 0 0 label mm k.pages v room few

  abbrev words₂ : ℕ → ℕ
  words₂ = copy_word_bytes size page start f.space.1.words

  only : (t : ℕ) → IsAligned t → t ≢ page → SameWords f.space.1.words words₂ t
  only t h ne j lt =
      let aligned = new-IsAligned label 0 0 (mm, k.pages) page f in
      copy_word_bytes-outside size page start f.space.1.words (t + 8 * j)
        (λ i lt' e. ne (omega (arith, e, aligned, h, lt, lt', fits)))

  source_ne : (i : ℕ) → i < size → (start + i) / 4096 * 4096 ≢ page
  source_ne i lt = old_page label 0 0 (mm, k.pages) page f _ (source i lt).0

  -- The source is apart from the new page.
  apart : (start + size ≤ page) ⊎ (page + size ≤ start)
  apart =
      let aligned = new-IsAligned label 0 0 (mm, k.pages) page f in
      elim (Bool-cases (ltb start page)) [
        | inl below ↦ elim (Bool-cases (leb (start + size) page)) [
          | inl e ↦ inl (ground arith)
          | inr e ↦
              let over : page < start + size = ground arith in
              let inside : page - start < size = omega (arith, over, ltb→lt start page below) in
              absurd
                (source_ne (page - start) inside (omega (arith, aligned, ltb→lt start page below)))
        ]
        | inr above ↦ elim (Bool-cases (leb (page + size) start)) [
          | inl e ↦ inr (ground arith)
          | inr e ↦
              let from : page ≤ start = ground arith in
              let over : start < page + size = ground arith in
              absurd (source_ne 0 some_bytes (omega (arith, aligned, from, over, fits)))
        ]
      ]

  bytes_lem : (i : ℕ) → i < size → load_byte words₂ (page + i) ≡ load_byte k.pages.words (start + i)
  bytes_lem i lt =
      load_byte-copied size page start f.space.1.words i apart lt
      ∙ load_byte-kept k.pages.words f.space.1.words (start + i) (f.kept _ (source i lt)).1

  abbrev after : Kernel
  after = record k {
    tasks = write_task k.tasks task (record (k.tasks task) {
      pt_regs = record (k.tasks task).pt_regs {
        pc = pc;
        pstate = psr_mode_el0t;
        sp = 2 * page_size;
      };
      mm = f.space.0;
    });
    pages = filled label 0 0 (mm, k.pages) page f words₂ only;
  }

  move_to_userspace-after :
      move_to_userspace (start + virtual_address_start) size pc task k ≡ some (true, after)
  unfolding move_to_userspace f
  move_to_userspace-after =
      let there : (page + virtual_address_start == 0) ≡ false = ground arith in
      let dest : page + virtual_address_start - virtual_address_start ≡ page = omega arith in
      let src : start + virtual_address_start - virtual_address_start ≡ start = omega arith in
      let n : copied_size size ≡ size = ground arith in
      rw (allocate_user_page_lem 0 0 label mm k.pages v room few, there, dest, src, n) refl

  after-task : after.tasks task ≡ record (k.tasks task) {
    pt_regs = record (k.tasks task).pt_regs { pc = pc; pstate = psr_mode_el0t; sp = 2 * page_size };
    mm = f.space.0;
  }
  after-task = write_task_self k.tasks task _

  after-Moved : Moved label start size pc task k after
  after-Moved = record {
    number = f.number;
    labels = f.labels;
    free_before = f.free_before;
    valid =
        subst (λ t. IsSpace f.labels (t.mm, after.pages)) (sym after-task)
          (filled-IsSpace label 0 0 (mm, k.pages) page f words₂ only);
    found =
        ap (λ (t : Task). physical (lookup (t.mm, after.pages) 0) 0) after-task
        ∙ ap (λ entry. physical entry 0)
            (lookup-filled label 0 0 (mm, k.pages) page f words₂ only 0)
        ∙ f.found
        ∙ omega (arith, f.address);
    bytes = λ i lt. ap (λ q. load_byte words₂ (q + i)) (sym f.address) ∙ bytes_lem i lt;
    others = λ va other.
        ap (λ (t : Task). lookup (t.mm, after.pages) va) after-task
        ∙ lookup-filled label 0 0 (mm, k.pages) page f words₂ only va
        ∙ f.others va other;
    kept = kept-filled label 0 0 (mm, k.pages) page f words₂ only;
    tasks = write_task-ne k.tasks task _;
    goes_on = ap (λ (t : Task). t.pt_regs.pc) after-task;
    mode = ap (λ (t : Task). t.pt_regs.pstate) after-task;
    stack = ap (λ (t : Task). t.pt_regs.sp) after-task;
  }

-- The four bytes of the magic number.
abbrev pub IsMagic : Memory → ℕ → Type 0
IsMagic mem header =
    (mem header ≡ 0x7F)
    × (mem (header + 1) ≡ 0x45)
    × (mem (header + 2) ≡ 0x4C)
    × (mem (header + 3) ≡ 0x46)

magic_matches-IsMagic :
    (mem : Memory) (header : ℕ)
    → (magic_matches mem header 0 elf_magic_number ≡ true) ↔ IsMagic mem header
unfolding magic_matches
magic_matches-IsMagic mem header =
    let e : mem (header + 0) ≡ mem header = ap mem (omega arith) in ground (arith, e)

-- The checks of the header: the magic number, the machine AArch64 and 64-bit words.
abbrev pub IsElf : Kernel → ℕ → Type 0
IsElf k header =
    let mem = kernel_bytes k in
    IsMagic mem header × (e_machine mem header ≡ 0xB7) × (word_len mem header ≡ 2)

-- Three checks, one after the other.
checks {ℓ} :
    {A : Type ℓ} (a b c : Bool) (good bad : A)
    → ((a ≡ true)
        × (b ≡ true)
        × (c ≡ true)
        × ((if a then (if b then (if c then good else bad) else bad) else bad) ≡ good))
      ⊎ ((¬ ((a ≡ true) × (b ≡ true) × (c ≡ true)))
          × ((if a then (if b then (if c then good else bad) else bad) else bad) ≡ bad))
checks true true true good bad = inl (refl, refl, refl, refl)
checks false b c good bad = inr (λ (e, _, _). absurd (cc e), refl)
checks true false c good bad = inr (λ (_, e, _). absurd (cc e), refl)
checks true true false good bad = inr (λ (_, _, e). absurd (cc e), refl)

-- The program of the file, and its size.
abbrev pub program_of : Kernel → ℕ → ℕ
program_of k header = program (kernel_bytes k) header - virtual_address_start

abbrev pub size_of : Kernel → ℕ → ℕ
size_of k header = p_filesz (kernel_bytes k) header

elf_load-cases :
    (header : ℕ) (k : Kernel)
    → (IsElf k header
        × (elf_load header k
            ≡ move_to_userspace
                (program (kernel_bytes k) header)
                (size_of k header)
                (e_entry (kernel_bytes k) header)
                k.current
                k))
      ⊎ ((¬ IsElf k header) × (elf_load header k ≡ some (false, k)))
unfolding elf_load
elf_load-cases header k =
    let mem = kernel_bytes k in
    let machine = e_machine mem header in
    let len = word_len mem header in
    let magic = magic_matches-IsMagic mem header in
    elim (checks (magic_matches mem header 0 elf_magic_number) (machine == elf_machine_aarch64)
      (len == elf_word_len_64)
      (move_to_userspace (program mem header) (size_of k header) (e_entry mem header) k.current k)
      (some (false, k))) [
        | inl (a, b, c, e) ↦ inl (
          (magic.0 a, (==_iff machine elf_machine_aarch64).0 b, (==_iff len elf_word_len_64).0 c),
          e,
        )
        | inr (bad, e) ↦ inr (
          λ (a, b, c). bad (
            magic.1 a,
            (==_iff machine elf_machine_aarch64).1 b,
            (==_iff len elf_word_len_64).1 c,
          ),
          e,
        )
      ]

-- A file at a kernel address whose first segment is from 1 to 4096 bytes, in pages in use that are
-- no tables of the current task, where the task's tables are a tree, with at most ten kernel pages and
-- fifteen user pages in its lists of sixteen, and five free pages: if its header has the magic number
-- of an ELF file, the machine AArch64 and 64-bit words, `elf_load` returns 0, and the current task has
-- the bytes of the segment at its address 0, in a page of its own that was free, and will go on at the
-- file's entry point, in user mode and with its stack below 0x2000; its other addresses are translated
-- as before, the pages in use that are no tables of it and the other tasks are kept. Any other header
-- is refused, and nothing is changed.
pub elf_load-Moved :
    (header : ℕ) (label : Label) (k : Kernel)
    → IsSpace label ((k.tasks k.current).mm, k.pages)
    → HasRoom 5 ((k.tasks k.current).mm, k.pages)
    → (k.tasks k.current).mm.userpages_count < max_process_pages
    → virtual_address_start ≤ program (kernel_bytes k) header
    → AreData label k.pages (program_of k header) (size_of k header)
    → 0 < size_of k header
    → size_of k header ≤ 4096
    → (IsElf k header
        × (k' : Kernel) × (elf_load header k ≡ some (true, k'))
        × Moved label
            (program_of k header)
            (size_of k header)
            (e_entry (kernel_bytes k) header)
            k.current
            k
            k')
      ⊎ ((¬ IsElf k header) × (elf_load header k ≡ some (false, k)))
elf_load-Moved header label k v room few kernel source some_bytes fits =
    let size = size_of k header in
    let start = program_of k header in
    let pc = e_entry (kernel_bytes k) header in
    elim (elf_load-cases header k) [
      | inl (is_elf, e) ↦
          let address : program (kernel_bytes k) header ≡ start + virtual_address_start =
            omega (arith, kernel) in
          inl (
            is_elf,
            after start size pc k.current label k v room few source some_bytes fits,
            e
                ∙ ap (λ a. move_to_userspace a size pc k.current k) address
                ∙ move_to_userspace-after start size pc k.current label k v room few source
                    some_bytes fits,
            after-Moved start size pc k.current label k v room few source some_bytes fits,
          )
      | inr refused ↦ inr refused
    ]
