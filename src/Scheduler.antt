-- ===== src/Scheduler.antt =====
-- The scheduler (src/scheduler/scheduler.c). `set_page_directory` and `cpu_switch_to` act on the
-- processor alone; that another task goes on after `switch_to` is that `current` names it.
pub mod Select
pub mod Recharge
pub mod Pick
pub mod Schedule
pub mod Kept
pub mod Tick
pub mod Pid
pub mod Fork
mod Tests
use pell_os.Base.{
  ℕ, zero, suc, ◌+◌, ◌%◌, Bool, false, ◌&&◌, ◌||◌, Option, none, some, List, [], ◌∷◌, ◌==◌, ltb,
  if◌then◌else◌, ◌>>=◌, get_or,
}
use pell_os.Base.Int.{ℤ, pos, negsuc, ltb_ℤ, half, to_sint32, ◌+ℤ◌, ◌-ℤ◌}
use pell_os.Kernel.{Kernel, Task, is_running, write_task, update_current}
use pell_os.SoftwareTimer.{check_timers, increment_tick}

abbrev pub task_limit : ℕ
task_limit = 64

unfoldable pub get_current_task_preempt : Kernel → ℤ
get_current_task_preempt k = (k.tasks k.current).preempt_count

unfoldable pub preempt_disable : Kernel → Kernel
unfolding write_task ◌+ℤ◌
preempt_disable k = update_current (λ t. record t { preempt_count = t.preempt_count +ℤ pos 1 }) k

unfoldable pub preempt_enable : Kernel → Kernel
unfolding write_task ◌-ℤ◌
preempt_enable k = update_current (λ t. record t { preempt_count = t.preempt_count -ℤ pos 1 }) k

-- The loop of `get_pid_from_ptr` over what is left of the array: the first place of `ptr`, or 0.
pub find_pid : ℕ → List ℕ → ℕ → ℕ
find_pid ptr [] i = 0
find_pid ptr (p ∷ ps) i = let rest = find_pid ptr ps (i + 1) in if p == ptr then i else rest

unfoldable pub get_pid_from_ptr : ℕ → Kernel → ℕ
unfolding find_pid
get_pid_from_ptr ptr k = find_pid ptr k.task_array 0

unfoldable pub get_pid : Kernel → ℕ
unfolding find_pid
get_pid k = find_pid k.current k.task_array 0

-- The test of the selection loop for a task that is to be compared at all.
abbrev pub is_candidate : (ℕ → Task) → ℕ → Bool
is_candidate tasks ptr = if ptr == 0 then false else is_running (tasks ptr).state

-- The selection loop of `_schedule`, with `left` rounds to go: the highest counter, and its place.
unfoldable pub select : (ℕ → Task) → List ℕ → (left i start_idx : ℕ) → ℤ → ℕ → ℤ × ℕ
select tasks array zero i start_idx c next = (c, next)
select tasks array (suc left) i start_idx c next =
    let idx = (start_idx + i) % task_limit in
    let ptr = get_or array idx 0 in
    let counter = to_sint32 (tasks ptr).counter in
    let better = is_candidate tasks ptr && ltb_ℤ c counter in
    select tasks array left (i + 1) start_idx (if better then counter else c)
      (if better then idx else next)

abbrev pub recharged : Task → Task
recharged t = record t { counter = half t.counter +ℤ t.priority }

-- The second loop: every task of the array gets its counter halved and its priority added.
unfoldable pub recharge : List ℕ → (ℕ → Task) → ℕ → Task
unfolding write_task half ◌+ℤ◌
recharge [] tasks = tasks
recharge (ptr ∷ ptrs) tasks =
    recharge ptrs (if ptr == 0 then tasks else write_task tasks ptr (recharged (tasks ptr)))

-- The endless loop of `_schedule`, with fuel; `none` is that the fuel ran out.
unfoldable pub pick : ℕ → ℕ → List ℕ → (ℕ → Task) → Option (ℕ × (ℕ → Task))
unfolding select recharge to_sint32
pick zero start_idx array tasks = none
pick (suc fuel) start_idx array tasks =
    let (c, next) = select tasks array task_limit 0 start_idx (negsuc 0) 0 in
    let rest = pick fuel start_idx array (recharge array tasks) in
    if ltb_ℤ (pos 0) c then some (next, tasks) else rest

unfoldable pub switch_to : ℕ → Kernel → Kernel
switch_to next k = if k.current == next then k else record k { current = next }

-- The end of `_schedule`, once the task is chosen.
unfoldable pub finish : Kernel → ℕ × (ℕ → Task) → Kernel
unfolding preempt_enable switch_to
finish k (next, tasks) =
    preempt_enable (switch_to (get_or k.task_array next 0) (record k { tasks = tasks }))

-- `_schedule`. The pid is the same in every round, since the loop changes neither the array nor
-- `current`.
unfoldable pub reschedule : ℕ → Kernel → Option Kernel
unfolding preempt_disable check_timers get_pid pick finish
reschedule fuel k = do
  let k₁ = check_timers (preempt_disable k)
  chosen ← pick fuel (get_pid k₁) k₁.task_array k₁.tasks
  some (finish k₁ chosen)

unfoldable pub schedule : ℕ → Kernel → Option Kernel
schedule fuel k = reschedule fuel (update_current (λ t. record t { counter = pos 0 }) k)

-- `scheduler_tick`. The interrupt mask around the call of `_schedule` is not part of the state.
unfoldable pub scheduler_tick : ℕ → Kernel → Option Kernel
unfolding increment_tick
scheduler_tick fuel k =
    let k₁ = increment_tick (update_current (λ t. record t { counter = t.counter -ℤ pos 1 }) k) in
    let t = k₁.tasks k₁.current in
    if ltb_ℤ (pos 0) t.counter || ltb_ℤ (pos 0) t.preempt_count
    then some k₁
    else reschedule fuel (update_current (λ t. record t { counter = pos 0 }) k₁)

-- `none` is a read past the array.
unfoldable pub set_task_priority : ℕ → ℕ → Kernel → Option Kernel
unfolding write_task
set_task_priority task_id priority k =
    if ltb task_id task_limit
    then (let ptr = get_or k.task_array task_id 0 in
        some (
          if ptr == 0 then k else record k {
            tasks = write_task k.tasks ptr (record (k.tasks ptr) { priority = pos priority });
          }))
    else none
