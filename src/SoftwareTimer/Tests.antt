-- ===== src/SoftwareTimer/Tests.antt =====
-- The software timers (src/lib/software_timer.c) at one expired timer and one that is not.
use pell_os.SoftwareTimer.Register.{find_timer}
use pell_os.SoftwareTimer.Sleep.{asleep, check_timers-start_timer}
use pell_os.Base.{
  ℕ, zero, suc, refl, arith, ◌≢◌, ◌≡◌, ◌≤◌, ◌<◌, ◌⊎◌, List, [], ◌∷◌, if◌then◌else◌, get_or,
}
use pell_os.Kernel.{Kernel, Timer, blocked, running, init_task}
use pell_os.SoftwareTimer.{no_timer, check_timers}
use pell_os.SoftwareTimer.Wake.{is_due, WokenBy, check_timers-Woken}

abbrev some_timers : List Timer
some_timers =
    record { finish_time = 7; task_ptr = 100 } ∷ record { finish_time = 9; task_ptr = 200 } ∷ []

abbrev some_kernel : Kernel
some_kernel = record {
  tasks = λ a. record init_task { state = blocked };
  task_array = 100 ∷ 200 ∷ [];
  current = 100;
  n_tasks = 2;
  timer_arr = some_timers;
  current_tick = 8;
  pages = record { page_bitmap = []; words = λ a. 0 };
}

check_timers-Woken_example :
    ((WokenBy 8 some_timers 100 × ((check_timers some_kernel).tasks 100 ≡ init_task))
      ⊎ ((¬ WokenBy 8 some_timers 100)
          × ((check_timers some_kernel).tasks 100 ≡ some_kernel.tasks 100)))
    × ((i : ℕ)
        → get_or (check_timers some_kernel).timer_arr i no_timer ≡ (
            if is_due 8 (get_or some_timers i no_timer)
            then no_timer
            else get_or some_timers i no_timer))
check_timers-Woken_example = check_timers-Woken some_kernel 100

-- Both timers are free.
abbrev awake_kernel : Kernel
awake_kernel = record some_kernel { timer_arr = no_timer ∷ no_timer ∷ [] }

no_own_timer :
    (j : ℕ) → j ≢ 0 → (get_or awake_kernel.timer_arr j no_timer).task_ptr ≢ awake_kernel.current
no_own_timer zero ne e = ne refl
no_own_timer (suc zero) ne e = omega (arith, e)
no_own_timer (suc (suc j)) ne e = omega (arith, e)

-- 500 ms from tick 8 on are over at tick 13.
check_timers-start_timer_example :
    let k' = check_timers (asleep 13 500 0 awake_kernel) in
    ((13 ≤ 13) × ((k'.tasks 100).state ≡ running) × (get_or k'.timer_arr 0 no_timer ≡ no_timer))
    ⊎ ((13 < 13)
        × ((k'.tasks 100).state ≡ blocked)
        × (get_or k'.timer_arr 0 no_timer ≡ record { finish_time = 13; task_ptr = 100 }))
check_timers-start_timer_example =
    check_timers-start_timer 13 500 0 awake_kernel (unfold find_timer in refl)
      (λ e. omega (arith, e)) no_own_timer
