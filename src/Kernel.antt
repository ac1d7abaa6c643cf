-- ===== src/Kernel.antt =====
-- The state that the scheduler and the software timers share: the tasks
-- (include/scheduler/task.h), the static variables of src/scheduler/scheduler.c and
-- src/lib/software_timer.c, and the pages.
use pell_os.Base.{
  ℕ, Bool, true, false, Option, none, List, ◌==◌, if◌then◌else◌, replicate, ◌≡◌, ==_iff, ==_refl,
  ◌≢◌, arith, Bool-cases, inl, inr,
}
use pell_os.Base.Int.{ℤ, pos}
use pell_os.Mm.Pages.{Pages}
use pell_os.Mm.Paging.{MemoryMap, max_process_pages}
use pell_os.Fs.Fd.{FdTable}

-- `enum TaskState`
pub data TaskState : Type 0 where
  running blocked suspended waiting zombie : TaskState

abbrev pub is_running : TaskState → Bool
is_running running = true
is_running _ = false

-- `cpu_context`, less the registers x21 to x28, which the C code never names.
pub record CpuContext : Type 0 where
  pub x19 : ℕ
  pub x20 : ℕ
  pub fp : ℕ
  pub sp : ℕ
  pub pc : ℕ

-- `task_pt_regs`, which lies at the top of the task's page.
pub record PtRegs : Type 0 where
  pub regs : List ℕ
  pub sp : ℕ
  pub pc : ℕ
  pub pstate : ℕ

-- `task_struct` with its `task_pt_regs`. A null file table is `none`.
pub record Task : Type 0 where
  pub cpu_context : CpuContext
  pub state : TaskState
  pub counter : ℤ
  pub priority : ℤ
  pub preempt_count : ℤ
  pub stack : ℕ
  pub flags : ℕ
  pub mm : MemoryMap
  pub fd_table : Option FdTable
  pub pt_regs : PtRegs

-- `onehit_timer_t`
pub record Timer : Type 0 where
  pub finish_time : ℕ
  pub task_ptr : ℕ

-- A task is named by the address of its `task_struct`; 0 is the null pointer.
pub record Kernel : Type 0 where
  pub tasks : ℕ → Task
  pub task_array : List ℕ
  pub current : ℕ
  pub n_tasks : ℕ
  pub timer_arr : List Timer
  pub current_tick : ℕ
  pub pages : Pages

-- `*ptr = t`
unfoldable pub write_task : (ℕ → Task) → ℕ → Task → ℕ → Task
write_task tasks ptr t a = if a == ptr then t else tasks a

-- A change of the task that `current` points to.
abbrev pub update_current : (Task → Task) → Kernel → Kernel
update_current f k = record k { tasks = write_task k.tasks k.current (f (k.tasks k.current)) }

-- What a page of zero bytes is as a `task_struct`.
abbrev pub zero_task : Task
zero_task = record {
  cpu_context = record { x19 = 0; x20 = 0; fp = 0; sp = 0; pc = 0 };
  state = running;
  counter = pos 0;
  priority = pos 0;
  preempt_count = pos 0;
  stack = 0;
  flags = 0;
  mm = record {
    pagedirectory = 0;
    userpages_count = 0;
    userpages = replicate max_process_pages (record { physical_adr = 0; virtual_adr = 0 });
    kernelpages_count = 0;
    kernelpages = replicate max_process_pages 0;
  };
  fd_table = none;
  pt_regs = record { regs = replicate 31 0; sp = 0; pc = 0; pstate = 0 };
}

abbrev pub task_flags_kernel_thread : ℕ
task_flags_kernel_thread = 2

-- `INIT_TASK`
abbrev pub init_task : Task
init_task = record zero_task { priority = pos 1; flags = task_flags_kernel_thread }

-- What a change keeps of the current task is kept of every task.
pub update_current_inv :
    (P : Task → Type 0) (f : Task → Task) (k : Kernel) (p : ℕ)
    → ((t : Task) → P t → P (f t))
    → P (k.tasks p)
    → P ((update_current f k).tasks p)
unfolding write_task
update_current_inv P f k p keep h = elim (Bool-cases (p == k.current)) [
  | inl e ↦
      let same : p ≡ k.current = (==_iff p k.current).0 e in rw (e, ← same) (keep (k.tasks p) h)
  | inr e ↦ rw e h
]

pub write_task_self : (tasks : ℕ → Task) (ptr : ℕ) (t : Task) → write_task tasks ptr t ptr ≡ t
unfolding write_task
write_task_self tasks ptr t = rw (==_refl ptr)

pub write_task-ne :
    (tasks : ℕ → Task) (ptr : ℕ) (t : Task) (a : ℕ) → a ≢ ptr → write_task tasks ptr t a ≡ tasks a
unfolding write_task
write_task-ne tasks ptr t a ne = let e : (a == ptr) ≡ false = ground (arith, ne) in rw e
