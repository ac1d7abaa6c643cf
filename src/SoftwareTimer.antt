-- ===== src/SoftwareTimer.antt =====
-- One-shot software timers (src/lib/software_timer.c, include/lib/software_timer.h).
-- `register_one_hit`, which ends in a call of the scheduler, is in `Register`.
pub mod Check
pub mod Wake
mod Tests
pub mod Register
pub mod Sleep
use pell_os.Base.{ℕ, ◌+◌, ◌%◌, ◌^◌, Bool, false, List, [], ◌∷◌, ◌==◌, leb, if◌then◌else◌}
use pell_os.Kernel.{Kernel, Task, Timer, running, write_task}

abbrev pub no_timer : Timer
no_timer = record { finish_time = 0; task_ptr = 0 }

-- `current_tick` is an `uint64_t`.
unfoldable pub increment_tick : Kernel → Kernel
increment_tick k = record k { current_tick = (k.current_tick + 1) % 2 ^ 64 }

-- A timer with a task whose time has come.
abbrev pub is_expired : ℕ → Timer → Bool
is_expired now t = if t.task_ptr == 0 then false else leb t.finish_time now

-- One round of the loop of `check_timers`: the timer and the tasks after it.
unfoldable pub check_timer : ℕ → Timer → (ℕ → Task) → Timer × (ℕ → Task)
check_timer now t tasks =
    if is_expired now t
    then (no_timer, write_task tasks t.task_ptr (record (tasks t.task_ptr) { state = running }))
    else (t, tasks)

unfoldable pub check_loop : ℕ → List Timer → (ℕ → Task) → List Timer × (ℕ → Task)
unfolding check_timer
check_loop now [] tasks = ([], tasks)
check_loop now (t ∷ ts) tasks =
    let (t', tasks') = check_timer now t tasks in
    let (ts', tasks'') = check_loop now ts tasks' in (t' ∷ ts', tasks'')

unfoldable pub check_timers : Kernel → Kernel
unfolding check_loop
check_timers k =
    let (timers, tasks) = check_loop k.current_tick k.timer_arr k.tasks in
    record k { timer_arr = timers; tasks = tasks }
