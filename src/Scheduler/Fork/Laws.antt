-- ===== src/Scheduler/Fork/Laws.antt =====
-- What `kernel_fork` (src/scheduler/scheduler.c) promises, and where it fails.
use pell_os.Base.{ℕ, refl, ◌<◌, ◌≡◌, ◌≢◌, ap, ◌∙◌, some, arith, bit_and}
use pell_os.Base.Int.{ℤ, pos, ◌<ℤ◌}
use pell_os.Mm.Paging.{allocate_kernel_page}
use pell_os.Kernel.{Kernel, Task, running, zero_task, task_flags_kernel_thread}
use pell_os.Scheduler.{task_limit, preempt_disable, scheduler_tick}
use pell_os.Scheduler.Schedule.{task_at, preempt_of, IsBalanced}
use pell_os.Scheduler.Tick.{scheduler_tick-held}
use pell_os.Scheduler.Fork.Enter.{
  disable-preempt, parent_priority, forked, new_task, kept_place, entry_lem, forked-IsBalanced,
}
use pell_os.Scheduler.Fork.{get_task_pt_regs, started, kernel_fork}

positive : (a : ℤ) → a ≡ pos 1 → pos 0 <ℤ a
positive a e = rw e (omega arith)

module _ (translate : (ℕ → ℕ) → ℕ → ℕ → ℕ) (ret_from_fork clone_flags fn args : ℕ)
    (k : Kernel) where
  -- With no page left, `kernel_fork` called by a task that may be preempted returns 0xFF and leaves
  -- its preemption held off, and the next tick does not take the processor from it.
  pub kernel_fork-full :
      (fuel : ℕ)
      → preempt_of k k.current ≡ pos 0
      → (allocate_kernel_page k.pages).0 ≡ 0
      → (k' : Kernel) × (kernel_fork translate ret_from_fork clone_flags fn args k
          ≡ some (0xFF, k'))
        × (preempt_of k' k.current ≡ pos 1)
        × ((k'' : Kernel) × (scheduler_tick fuel k' ≡ some k'')
            × (k''.current ≡ k.current)
            × (preempt_of k'' k.current ≡ pos 1))
  unfolding kernel_fork
  kernel_fork-full fuel idle full =
      let k' : Kernel = record (preempt_disable k) { pages = (allocate_kernel_page k.pages).1 } in
      let one = disable-preempt k idle in
      let (k'', e, cur, same) = scheduler_tick-held fuel k' (positive _ one) in
      (k', ground (arith, full), one, (k'', e, cur, same k.current ∙ one))

  abbrev page : ℕ
  page = (allocate_kernel_page k.pages).0

  abbrev parent : Task
  parent = (preempt_disable k).tasks k.current

  -- The new task of a kernel thread.
  abbrev pub thread : Task
  thread =
      started translate ret_from_fork clone_flags (get_task_pt_regs page) parent
        (record zero_task { cpu_context = record zero_task.cpu_context { x19 = fn; x20 = args } })

  kernel_fork-forked :
      bit_and clone_flags task_flags_kernel_thread ≢ 0
      → page ≢ 0
      → k.n_tasks < task_limit
      → kernel_fork translate ret_from_fork clone_flags fn args k
        ≡ some (k.n_tasks, forked k page thread (allocate_kernel_page k.pages).1)
  unfolding kernel_fork
  kernel_fork-forked thread_flag found room = ground (arith)

  -- The new task stands at the next place, set up to run with its parent's priority as its first
  -- slice; the other places are kept.
  pub record Entered (k' : Kernel) : Type 0 where
    pub entry : task_at k' k.n_tasks ≡ page
    pub places : (n : ℕ) → n ≢ k.n_tasks → task_at k' n ≡ task_at k n
    pub state : (k'.tasks page).state ≡ running
    pub priority : (k'.tasks page).priority ≡ (k.tasks k.current).priority
    pub counter : (k'.tasks page).counter ≡ (k.tasks k.current).priority
    pub starts_at : (k'.tasks page).cpu_context.pc ≡ ret_from_fork
    pub calls : (k'.tasks page).cpu_context.x19 ≡ fn
    pub balanced : IsBalanced k'

  module _ (b : IsBalanced k) (room : k.n_tasks < task_limit) (free : task_at k k.n_tasks ≡ 0)
      (found : page ≢ 0) (fresh : (n : ℕ) → n < task_limit → task_at k n ≢ page) where
    -- With balanced preemption counters, a page and an empty place left, and the page in no use as a
    -- task, forking a kernel thread returns the next place, in which the new task is `Entered`: set
    -- up to run `fn` with its parent's priority, the other places kept, the counters balanced.
    pub kernel_fork-Entered :
        bit_and clone_flags task_flags_kernel_thread ≢ 0
        → (k' : Kernel) × (kernel_fork translate ret_from_fork clone_flags fn args k
            ≡ some (k.n_tasks, k'))
          × Entered k'
    kernel_fork-Entered thread_flag =
        let p' = (allocate_kernel_page k.pages).1 in
        let new = new_task k page thread p' refl b room free found fresh in
        let same = parent_priority k in
        (
          forked k page thread p',
          kernel_fork-forked thread_flag found room,
          record {
            entry =
                ground (arith, entry_lem k page thread p' refl b room free found fresh k.n_tasks);
            places = kept_place k page thread p' refl b room free found fresh;
            state = ap (λ t. t.state) new;
            priority = ap (λ t. t.priority) new ∙ same;
            counter = ap (λ t. t.counter) new ∙ same;
            starts_at = ap (λ t. t.cpu_context.pc) new;
            calls = ap (λ t. t.cpu_context.x19) new;
            balanced = forked-IsBalanced k page thread p' refl b room free found fresh;
          },
        )
