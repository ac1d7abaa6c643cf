-- ===== src/Scheduler/Fork/Tests.antt =====
-- The fork of a user task (src/scheduler/scheduler.c, src/mm/paging.c) that has one page.
use pell_os.Base.{
  ℕ, zero, suc, ◌<◌, ◌≡◌, ◌≢◌, refl, some, [], ◌∷◌, arith, replicate, get_or-replicate, get_or,
}
use pell_os.Base.Int.{pos}
use pell_os.Mm.Pages.Count.{get_next_free_page-counts}
use pell_os.Mm.Paging.{copy_virtual_memory, allocate_kernel_page}
use pell_os.Mm.Paging.CopyRound.{processor, Copied}
use pell_os.Mm.Paging.Copy.{copy_virtual_memory-Copied}
use pell_os.Kernel.{Kernel, zero_task, init_task}
use pell_os.Scheduler.{task_limit}
use pell_os.Scheduler.Schedule.{task_at, preempt_of, IsBalanced}
use pell_os.Scheduler.Fork.{kernel_fork}
use pell_os.Scheduler.Fork.Parent.{no_tables, empty-IsSpace}
use pell_os.Scheduler.Fork.User.{IsForked, kernel_fork-IsForked}
use pell_os.Scheduler.Fork.OnePage.{mapped, one_page_map, one_page_map-IsParent, user_pages}

copy_virtual_memory-Copied_example :
    Copied no_tables one_page_map.pagedirectory user_pages
      (zero_task.mm, mapped.space.1)
      (copy_virtual_memory processor one_page_map (zero_task.mm, mapped.space.1))
copy_virtual_memory-Copied_example =
    copy_virtual_memory-Copied mapped.labels no_tables one_page_map (zero_task.mm, mapped.space.1)
      one_page_map-IsParent (empty-IsSpace mapped.space.1 mapped.valid.tree.valid)
      (record { entries = omega arith; pages = omega (arith, mapped.room.pages) }) (omega arith)
      (tt, tt)

-- The only task, at 100, is current and has that address space.
abbrev one_task : Kernel
one_task = record {
  tasks = λ a. record init_task { flags = 0; mm = one_page_map };
  task_array = 100 ∷ replicate 63 0;
  current = 100;
  n_tasks = 1;
  timer_arr = [];
  current_tick = 0;
  pages = mapped.space.1;
}

others_empty : (n : ℕ) → get_or one_task.task_array (suc n) 0 ≡ 0
others_empty n = get_or-replicate 63 n 0

one_task-IsBalanced : IsBalanced one_task
one_task-IsBalanced = record {
  size = refl;
  place = 0;
  place_in = omega arith;
  current_at = refl;
  current_ne = omega arith;
  preemptible = refl;
  others = others;
}
  where
    others :
        (n : ℕ)
        → n < task_limit
        → task_at one_task n ≢ 0
        → task_at one_task n ≢ 100
        → preempt_of one_task (task_at one_task n) ≡ pos 1
    others zero h ne other = absurd (other refl)
    others (suc n) h ne other = absurd (ne (others_empty n))

-- The page handed out lies above 100.
above : 100 < (allocate_kernel_page mapped.space.1).0
unfolding allocate_kernel_page
above =
    let (m, a, v, count) =
      get_next_free_page-counts mapped.space.1 mapped.valid.tree.valid
        (omega (arith, mapped.room.pages)) in
    ground (arith, a.address)

one_task-fresh :
    (n : ℕ) → n < task_limit → task_at one_task n ≢ (allocate_kernel_page mapped.space.1).0
one_task-fresh zero h e = omega (arith, above, e)
one_task-fresh (suc n) h e = omega (arith, above, e, others_empty n)

kernel_fork-IsForked_example :
    (k' : Kernel) × (kernel_fork processor 5 0 0 0 one_task ≡ some (1, k'))
    × IsForked one_task (allocate_kernel_page mapped.space.1).0 user_pages k'
kernel_fork-IsForked_example =
    kernel_fork-IsForked 5 0 0 0 one_task mapped.labels one_task-IsBalanced (omega arith) refl
      one_task-fresh refl one_page_map-IsParent (omega (arith, mapped.room.pages)) (omega arith)
      (tt, tt)
