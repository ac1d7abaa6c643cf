-- ===== src/SoftwareTimer/Register.antt =====
-- `register_one_hit` (src/lib/software_timer.c).
use pell_os.Base.{
  ℕ, ◌+◌, ◌/◌, ◌%◌, ◌^◌, Option, none, some, List, [], ◌∷◌, ◌==◌, if◌then◌else◌, set,
}
use pell_os.Kernel.{Kernel, Timer, blocked, update_current}
use pell_os.Scheduler.{schedule}

abbrev pub software_timer_prescaler : ℕ
software_timer_prescaler = 100

-- The loop: the first timer whose finish time is 0.
unfoldable pub find_timer : List Timer → ℕ → Option ℕ
find_timer [] i = none
find_timer (t ∷ ts) i =
    let rest = find_timer ts (i + 1) in if t.finish_time == 0 then some i else rest

-- `finish_time` is an `uint32_t`.
abbrev pub timer_for : ℕ → Kernel → Timer
timer_for delay_in_ms k = record {
  finish_time = (k.current_tick + delay_in_ms / software_timer_prescaler) % 2 ^ 32;
  task_ptr = k.current;
}

-- Timer `i` is taken, and the current task blocked.
unfoldable pub start_timer : ℕ → ℕ → Kernel → Kernel
start_timer delay_in_ms i k =
    update_current (λ t. record t { state = blocked })
      (record k { timer_arr = set k.timer_arr i (timer_for delay_in_ms k) })

unfoldable pub register_one_hit : (fuel delay_in_ms : ℕ) → Kernel → Option Kernel
unfolding find_timer start_timer schedule
register_one_hit fuel delay_in_ms k = elim (find_timer k.timer_arr 0) [
  | none ↦ some k
  | some i ↦ schedule fuel (start_timer delay_in_ms i k)
]
