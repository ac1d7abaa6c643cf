-- ===== src/Scheduler/Fork.antt =====
-- `kernel_fork` and `exit_task` (src/scheduler/scheduler.c), `get_task_pt_regs`
-- (src/scheduler/task.c). `translate` is the processor's address translation, and `ret_from_fork`
-- the address of that entry point (src/asm/task.S).
pub mod Enter
pub mod Laws
pub mod Parent
pub mod User
pub mod Exit
pub mod OnePage
mod Tests
use pell_os.Base.{
  ℕ, ◌+◌, ◌-◌, ◌*◌, ◌%◌, Option, none, some, ◌==◌, ltb, if◌then◌else◌, ◌>>=◌, bit_and, set, get_or,
}
use pell_os.Base.Int.{pos}
use pell_os.Mm.Pages.{Pages, free_page}
use pell_os.Mm.Paging.{allocate_kernel_page, copy_virtual_memory}
use pell_os.KernelHeap.{KernelHeap, Call, returns, fault, out_of_fuel}
use pell_os.Fs.Fd.Destroy.{destroy_fd_table}
use pell_os.Kernel.{Kernel, Task, running, zombie, write_task, zero_task, task_flags_kernel_thread}
use pell_os.Scheduler.{task_limit, preempt_disable, preempt_enable, get_pid, schedule}

-- `TASK_SIZE` and `sizeof(task_pt_regs)`
abbrev pub task_size : ℕ
task_size = 4096

abbrev pub pt_regs_size : ℕ
pt_regs_size = 34 * 8

abbrev pub get_task_pt_regs : ℕ → ℕ
get_task_pt_regs task = task + task_size - pt_regs_size

module _ (translate : (ℕ → ℕ) → ℕ → ℕ → ℕ) (ret_from_fork : ℕ) where
  -- The part that depends on the kind of task: `task` is the new `task_struct`, still zero.
  unfoldable pub prepare :
      (clone_flags fn args : ℕ) → (parent task : Task) → Pages → Option (Task × Pages)
  unfolding copy_virtual_memory
  prepare clone_flags fn args parent task p =
      if bit_and clone_flags task_flags_kernel_thread == 0
      then (do
        (_, (mm, p')) ← copy_virtual_memory translate parent.mm (task.mm, p)
        some (
          record task {
            mm = mm;
            pt_regs = record parent.pt_regs { regs = set parent.pt_regs.regs 0 0 };
          },
          p',
        ))
      else some (record task { cpu_context = record task.cpu_context { x19 = fn; x20 = args } }, p)

  -- The fields that `kernel_fork` then sets.
  abbrev pub started : (clone_flags child : ℕ) → (parent task : Task) → Task
  started clone_flags child parent task = record task {
    preempt_count = pos 1;
    flags = clone_flags;
    priority = parent.priority;
    counter = parent.priority;
    state = running;
    fd_table = none;
    cpu_context = record task.cpu_context { pc = ret_from_fork; sp = child };
  }

  -- `n_tasks` is an `uint8_t`; `none` is a write past `task_array`.
  unfoldable pub enter_task : ℕ → Task → Kernel → Option (ℕ × Kernel)
  unfolding write_task preempt_enable
  enter_task ptr task k =
      let pid = k.n_tasks in
      if ltb pid task_limit
      then some (
        pid,
        preempt_enable (record k {
          tasks = write_task k.tasks ptr task;
          n_tasks = (pid + 1) % 256;
          task_array = set k.task_array pid ptr;
        }),
      )
      else none

  -- What follows the allocation of the page.
  unfoldable pub fork_at : (clone_flags fn args : ℕ) → Kernel → ℕ × Pages → Option (ℕ × Kernel)
  unfolding prepare enter_task
  fork_at clone_flags fn args k (page, p) =
      if page == 0 then some (0xFF, record k { pages = p }) else (do
        (task, p') ← prepare clone_flags fn args (k.tasks k.current) zero_task p
        enter_task page (started clone_flags (get_task_pt_regs page) (k.tasks k.current) task)
            (record k { pages = p' }))

  -- `kernel_fork`. A page that was just handed out holds zeros. `none` is an access out of range.
  unfoldable pub kernel_fork : (clone_flags fn args : ℕ) → Kernel → Option (ℕ × Kernel)
  unfolding preempt_disable allocate_kernel_page fork_at
  kernel_fork clone_flags fn args k =
      let k₁ = preempt_disable k in fork_at clone_flags fn args k₁ (allocate_kernel_page k₁.pages)

-- `exit_task`, with the pointers of the task's table of descriptors and the heap, whose memory stands
-- apart from the words of `pages`. `none` is also that `kfree` reads a header at no memory.
unfoldable pub exit_task :
    (heap_fuel fuel bitmap file : ℕ) → KernelHeap → Kernel → Option (KernelHeap × Kernel)
unfolding preempt_disable preempt_enable get_pid write_task destroy_fd_table free_page schedule
exit_task heap_fuel fuel bitmap file h k =
    let k₁ = preempt_disable k in
    let ptr = get_or k₁.task_array (get_pid k₁) 0 in
    let k₂ = record k₁ {
      tasks = write_task k₁.tasks ptr (record (k₁.tasks ptr) { state = zombie });
    } in
    let stack = (k₂.tasks k₂.current).stack in
    let k₃ = if stack == 0 then k₂ else record k₂ { pages = free_page stack k₂.pages } in
    elim (destroy_fd_table heap_fuel bitmap file h) [
      | returns h' ↦ schedule fuel (preempt_enable k₃) >>= (λ k'. some (h', k'))
      | fault ↦ none
      | out_of_fuel ↦ none
    ]
