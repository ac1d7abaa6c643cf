-- ===== src/SoftwareTimer/Check.antt =====
-- `check_timers` (src/lib/software_timer.c): whom it wakes, and what it leaves alone.
use pell_os.Base.{ℕ, ◌≡◌, List, [], ◌∷◌, ◌==◌, ==_iff, Bool-cases, inl, inr}
use pell_os.Kernel.{Kernel, Task, Timer, running, write_task}
use pell_os.SoftwareTimer.{is_expired, check_timer, check_loop, check_timers}

-- What waking a task keeps is kept by the loop.
pub check_loop_inv :
    (P : Task → Type 0) (now : ℕ) (ts : List Timer) (tasks : ℕ → Task) (p : ℕ)
    → ((t : Task) → P t → P (record t { state = running }))
    → P (tasks p)
    → P ((check_loop now ts tasks).1 p)
unfolding check_loop write_task
check_loop_inv P now [] tasks p keep h = h
check_loop_inv P now (t ∷ ts) tasks p keep h = check_loop_inv P now ts _ p keep step
  where
    step : P ((check_timer now t tasks).1 p)
    step = elim (Bool-cases (is_expired now t)) [
      | inl e ↦ elim (Bool-cases (p == t.task_ptr)) [
        | inl e' ↦
            let same : p ≡ t.task_ptr = (==_iff p t.task_ptr).0 e' in
            rw (e, e', ← same) (keep (tasks p) h)
        | inr e' ↦ rw (e, e') h
      ]
      | inr e ↦ rw e h
    ]

pub check_timers_inv :
    (P : Task → Type 0) (k : Kernel) (p : ℕ)
    → ((t : Task) → P t → P (record t { state = running }))
    → P (k.tasks p)
    → P ((check_timers k).tasks p)
unfolding check_timers
check_timers_inv P k p keep h = check_loop_inv P k.current_tick k.timer_arr k.tasks p keep h
