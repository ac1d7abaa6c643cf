-- ===== src/Scheduler/Tests.antt =====
-- The scheduler (src/scheduler/scheduler.c) with one and two tasks.
use pell_os.Base.{
  ℕ, zero, suc, ◌<◌, ◌≡◌, ◌≢◌, ◌⊎◌, refl, false, some, none, List, [], ◌∷◌, arith, replicate,
  get_or-replicate, get_or, if◌then◌else◌, ◌==◌,
}
use pell_os.Base.Int.{pos, ◌≤ℤ◌, ◌<ℤ◌}
use pell_os.Mm.Pages.{Pages, get_next_free_page}
use pell_os.Mm.Paging.{allocate_kernel_page}
use pell_os.Kernel.{Kernel, Task, running, blocked, init_task}
use pell_os.Scheduler.{task_limit, is_candidate, pick, reschedule, scheduler_tick}
use pell_os.Scheduler.Recharge.{IsCharged}
use pell_os.Scheduler.Pick.{Chosen, pick-Chosen, pick-spins}
use pell_os.Scheduler.Schedule.{
  task_at, preempt_of, IsBalanced, IsScheduled, reschedule-IsScheduled,
}
use pell_os.Scheduler.Tick.{ticked, scheduler_tick-slice}
use pell_os.Scheduler.{get_pid, set_task_priority}
use pell_os.Scheduler.Pid.{set_task_priority-get_pid}
use pell_os.Scheduler.Fork.{kernel_fork, exit_task}
use pell_os.Scheduler.Fork.Exit.{Exited, exit_task-Exited}
use pell_os.KernelHeap.{KernelHeap, returns}
use pell_os.Fs.Fd.Destroy.{destroy_fd_table}
use pell_os.SoftwareTimer.Wake.{WokenBy}
use pell_os.Scheduler.Fork.Laws.{Entered, kernel_fork-full, kernel_fork-Entered}

-- The task at 100 is the current one, and its slice is over; the task at 200 waits in `_schedule`.
abbrev two_tasks : ℕ → Task
two_tasks a = if a == 100 then init_task else record init_task { preempt_count = pos 1 }

abbrev two_array : List ℕ
two_array = 100 ∷ 200 ∷ replicate 62 0

abbrev some_pages : Pages
some_pages = record { page_bitmap = 1 ∷ 0 ∷ []; words = λ a. 0 }

abbrev two_kernel : Kernel
two_kernel = record {
  tasks = two_tasks;
  task_array = two_array;
  current = 100;
  n_tasks = 2;
  timer_arr = [];
  current_tick = 0;
  pages = some_pages;
}

-- The same with no page left.
abbrev full_kernel : Kernel
full_kernel = record two_kernel { pages = record some_pages { page_bitmap = 1 ∷ [] } }

rest_empty : (n : ℕ) → get_or two_array (suc (suc n)) 0 ≡ 0
rest_empty n = get_or-replicate 62 n 0

two_kernel-IsBalanced : IsBalanced two_kernel
two_kernel-IsBalanced = record {
  size = refl;
  place = 0;
  place_in = omega arith;
  current_at = refl;
  current_ne = omega arith;
  preemptible = refl;
  others = others;
}
  where
    others :
        (n : ℕ)
        → n < task_limit
        → task_at two_kernel n ≢ 0
        → task_at two_kernel n ≢ 100
        → preempt_of two_kernel (task_at two_kernel n) ≡ pos 1
    others zero h ne other = absurd (other refl)
    others (suc zero) h ne other = refl
    others (suc (suc n)) h ne other = absurd (ne (rest_empty n))

init_task-IsCharged : IsCharged 0 running init_task
init_task-IsCharged = record {
  state = refl;
  priority_low = omega arith;
  priority_high = omega arith;
  counter_low = omega arith;
  counter_high = omega arith;
}

scheduler_tick-slice_example :
    ((pos 1 <ℤ pos 0)
      × (scheduler_tick 2 two_kernel ≡ some (ticked two_kernel))
      × ((ticked two_kernel).current ≡ 100))
    ⊎ ((pos 0 ≤ℤ pos 1)
        × ((k' : Kernel) × (scheduler_tick 2 two_kernel ≡ some k') × IsScheduled k'))
scheduler_tick-slice_example =
    scheduler_tick-slice 0 0 two_kernel two_kernel-IsBalanced (omega arith) (omega arith)
      init_task-IsCharged

reschedule-IsScheduled_example :
    (k' : Kernel) × (reschedule 2 two_kernel ≡ some k') × IsScheduled k'
reschedule-IsScheduled_example =
    reschedule-IsScheduled 0 0 two_kernel two_kernel-IsBalanced (omega arith) (omega arith)
      init_task-IsCharged

pick-Chosen_example :
    (next : ℕ) × (tasks' : ℕ → Task) × (pick 2 0 two_array two_tasks ≡ some (next, tasks'))
    × Chosen tasks' two_array 0 next
pick-Chosen_example =
    pick-Chosen two_array 0 0 1 two_tasks (omega arith) (omega arith) (omega arith) (record {
      state = refl;
      priority_low = omega arith;
      priority_high = omega arith;
      counter_low = omega arith;
      counter_high = omega arith;
    })

abbrev all_blocked : ℕ → Task
all_blocked a = record init_task { state = blocked }

all_blocked-idle :
    (n : ℕ) → n < task_limit → is_candidate all_blocked (get_or two_array n 0) ≡ false
all_blocked-idle zero h = refl
all_blocked-idle (suc zero) h = refl
all_blocked-idle (suc (suc n)) h = rw (rest_empty n) refl

pick-spins_example : pick 9 0 two_array all_blocked ≡ none
pick-spins_example = pick-spins two_array 0 9 all_blocked all_blocked-idle

abbrev identity : (ℕ → ℕ) → ℕ → ℕ → ℕ
identity words directory address = address

-- The page handed out lies above the addresses of the two tasks.
two_kernel-fresh :
    (n : ℕ) → n < task_limit → task_at two_kernel n ≢ (allocate_kernel_page some_pages).0
unfolding allocate_kernel_page get_next_free_page
two_kernel-fresh zero h = omega arith
two_kernel-fresh (suc zero) h = omega arith
two_kernel-fresh (suc (suc n)) h = omega (arith, rest_empty n)

kernel_fork-Entered_example :
    (k' : Kernel) × (kernel_fork identity 5 2 0x8000 3 two_kernel ≡ some (2, k'))
    × Entered identity 5 2 0x8000 3 two_kernel k'
unfolding allocate_kernel_page get_next_free_page
kernel_fork-Entered_example =
    kernel_fork-Entered identity 5 2 0x8000 3 two_kernel two_kernel-IsBalanced (omega arith) refl
      (omega arith) two_kernel-fresh (omega arith)

kernel_fork-full_example :
    (k' : Kernel) × (kernel_fork identity 5 2 0x8000 3 full_kernel ≡ some (0xFF, k'))
    × (preempt_of k' 100 ≡ pos 1)
    × ((k'' : Kernel) × (scheduler_tick 0 k' ≡ some k'')
        × (k''.current ≡ 100)
        × (preempt_of k'' 100 ≡ pos 1))
unfolding allocate_kernel_page get_next_free_page
kernel_fork-full_example = kernel_fork-full identity 5 2 0x8000 3 full_kernel 0 refl refl

set_task_priority-get_pid_example :
    (k' : Kernel) × (set_task_priority (get_pid two_kernel) 7 two_kernel ≡ some k')
    × (k'.tasks 100 ≡ record init_task { priority = pos 7 })
    × ((p : ℕ) → p ≢ 100 → k'.tasks p ≡ two_tasks p)
set_task_priority-get_pid_example = set_task_priority-get_pid 7 two_kernel two_kernel-IsBalanced

-- No timer runs.
two_kernel-asleep : ¬ WokenBy 0 [] 100
two_kernel-asleep (i, lt, expired, here) = absurd (omega (arith, lt))

-- An empty heap.
abbrev empty_heap : KernelHeap
empty_heap = record { first_free = 0; memory = λ a. 0 }

exit_task-Exited_example :
    (((h' : KernelHeap) × (destroy_fd_table 3 0 0 empty_heap ≡ returns h')
        × (k' : Kernel) × (exit_task 3 2 0 0 empty_heap two_kernel ≡ some (h', k'))
        × Exited two_kernel k')
      ⊎ (((h' : KernelHeap) → destroy_fd_table 3 0 0 empty_heap ≢ returns h')
          × (exit_task 3 2 0 0 empty_heap two_kernel ≡ none)))
    × (destroy_fd_table 3 0 0 empty_heap ≡ returns empty_heap)
exit_task-Exited_example =
    exit_task-Exited 3 0 1 0 0 empty_heap two_kernel two_kernel-IsBalanced two_kernel-asleep
      (omega arith) (omega arith) (omega arith)
      (record {
        state = refl;
        priority_low = omega arith;
        priority_high = omega arith;
        counter_low = omega arith;
        counter_high = omega arith;
      })
