-- ===== src/Scheduler/Kept.antt =====
-- What `_schedule` (src/scheduler/scheduler.c) leaves alone: the states of the tasks that no timer
-- wakes, and the pages.
use pell_os.Base.{ℕ, ◌≡◌, arith, sym, ap, ◌∙◌, some, inl, inr, Option-cases, eq_of_some, ◌>>=◌}
use pell_os.Kernel.{Kernel, Task}
use pell_os.SoftwareTimer.{check_timers}
use pell_os.SoftwareTimer.Wake.{WokenBy, check_timers-Woken}
use pell_os.Scheduler.{preempt_disable, preempt_enable, get_pid, pick, finish, reschedule}
use pell_os.Scheduler.Pick.{pick_inv}
use pell_os.Scheduler.Schedule.{entered, finish-Finished, finish_lem}

-- The task that was chosen, when `_schedule` returns.
reschedule-pick :
    (fuel : ℕ) (k k' : Kernel)
    → reschedule fuel k ≡ some k'
    → (r : ℕ × (ℕ → Task)) × (pick fuel
          (get_pid (entered k))
          (entered k).task_array
          (entered k).tasks
        ≡ some r)
      × (finish (entered k) r ≡ k')
unfolding reschedule
reschedule-pick fuel k k' e =
    let chosen = pick fuel (get_pid (entered k)) (entered k).task_array (entered k).tasks in
    elim (Option-cases chosen) [
      | inl q ↦ absurd (cc (sym (ap (λ o. o >>= (λ r. some (finish (entered k) r))) q) ∙ e))
      | inr (r, q) ↦
          (r, q, eq_of_some (sym (ap (λ o. o >>= (λ r. some (finish (entered k) r))) q) ∙ e))
    ]

disable-state : (k : Kernel) (p : ℕ) → ((preempt_disable k).tasks p).state ≡ (k.tasks p).state
unfolding preempt_disable
disable-state k p = ground arith

entered-state :
    (k : Kernel) (p : ℕ)
    → ¬ WokenBy k.current_tick k.timer_arr p
    → ((entered k).tasks p).state ≡ (k.tasks p).state
unfolding preempt_disable
entered-state k p asleep = elim (check_timers-Woken (preempt_disable k) p).0 [
  | inl (woken, e) ↦ absurd (asleep woken)
  | inr (other, e) ↦ ap (λ (t : Task). t.state) e ∙ disable-state k p
]

pub reschedule-state :
    (fuel : ℕ) (k k' : Kernel) (p : ℕ)
    → reschedule fuel k ≡ some k'
    → ¬ WokenBy k.current_tick k.timer_arr p
    → (k'.tasks p).state ≡ (k.tasks p).state
reschedule-state fuel k k' p e asleep =
    let ((next, tasks), q, f) = reschedule-pick fuel k k' e in
    let same : (tasks p).state ≡ (k.tasks p).state =
      pick_inv (entered k).task_array (get_pid (entered k)) (λ t. t.state ≡ (k.tasks p).state) fuel
        (entered k).tasks p (next, tasks) q (λ t h. h) (entered-state k p asleep) in
    sym (ap (λ (k : Kernel). (k.tasks p).state) f)
    ∙ (finish-Finished (entered k) next tasks).state p
    ∙ same

pub reschedule-pages : (fuel : ℕ) (k k' : Kernel) → reschedule fuel k ≡ some k' → k'.pages ≡ k.pages
unfolding preempt_enable preempt_disable check_timers
reschedule-pages fuel k k' e =
    let ((next, tasks), q, f) = reschedule-pick fuel k k' e in
    sym (ap (λ (k : Kernel). k.pages) f)
    ∙ ap (λ (k : Kernel). k.pages) (finish_lem (entered k) next tasks)
