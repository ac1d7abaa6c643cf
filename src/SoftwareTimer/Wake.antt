-- ===== src/SoftwareTimer/Wake.antt =====
-- Which tasks `check_timers` (src/lib/software_timer.c) wakes, and which timers it frees.
use pell_os.Base.{
  ℕ, zero, suc, ◌<◌, ◌≡◌, ◌⊎◌, inl, inr, refl, ap, ◌∙◌, sym, Bool, true, false, leb, List, [], ◌∷◌,
  arith, ◌==◌, ==_iff, if◌then◌else◌, Bool-cases, length, get_or,
}
use pell_os.Kernel.{Kernel, Task, Timer, running, write_task}
use pell_os.SoftwareTimer.{no_timer, check_timer, check_loop, check_timers}

-- The timer belongs to a task, and its finish time has come.
abbrev pub is_due : ℕ → Timer → Bool
is_due now t = if t.task_ptr == 0 then false else leb t.finish_time now

-- Some timer of the list is the task's and has expired.
abbrev pub WokenBy : ℕ → List Timer → ℕ → Type 0
WokenBy now ts p =
    (i : ℕ) × (i < length ts)
    × (is_due now (get_or ts i no_timer) ≡ true)
    × ((get_or ts i no_timer).task_ptr ≡ p)

abbrev woken : Task → Task
woken t = record t { state = running }

round_cases :
    (now : ℕ) (t : Timer) (tasks : ℕ → Task) (p : ℕ)
    → ((is_due now t ≡ true) × (t.task_ptr ≡ p) × ((check_timer now t tasks).1 p ≡ woken (tasks p)))
      ⊎ ((¬ ((is_due now t ≡ true) × (t.task_ptr ≡ p))) × ((check_timer now t tasks).1 p ≡ tasks p))
unfolding check_timer write_task
round_cases now t tasks p = elim (Bool-cases (is_due now t)) [
  | inr e ↦ inr (λ (h, q). ground (arith, e, h), rw e refl)
  | inl e ↦ elim (Bool-cases (p == t.task_ptr)) [
    | inl q ↦
        let same : p ≡ t.task_ptr = (==_iff p t.task_ptr).0 q in
        inl (e, sym same, rw (e, q) (ap (λ a. woken (tasks a)) (sym same)))
    | inr q ↦
        inr (λ (h, same). ground (arith, q, (==_iff p t.task_ptr).1 (sym same)), rw (e, q) refl)
  ]
]

abbrev Woken : ℕ → List Timer → (ℕ → Task) → ℕ → Type 0
Woken now ts tasks p =
    (WokenBy now ts p × ((check_loop now ts tasks).1 p ≡ woken (tasks p)))
    ⊎ ((¬ WokenBy now ts p) × ((check_loop now ts tasks).1 p ≡ tasks p))

check_loop-Woken : (now : ℕ) (ts : List Timer) (tasks : ℕ → Task) (p : ℕ) → Woken now ts tasks p
unfolding check_loop
check_loop-Woken now [] tasks p = inr (λ (i, h, _, _). absurd (omega arith), refl)
check_loop-Woken now (t ∷ ts) tasks p =
    elim (check_loop-Woken now ts (check_timer now t tasks).1 p) [
      | inl ((i, h, e, q), w) ↦ inl (
        (suc i, omega arith, e, q),
        elim (round_cases now t tasks p) [
          | inl (_, _, r) ↦ w ∙ ap woken r
          | inr (_, r) ↦ w ∙ ap woken r
        ],
      )
      | inr (never, w) ↦ elim (round_cases now t tasks p) [
        | inl (e, q, r) ↦ inl ((0, omega arith, e, q), w ∙ r)
        | inr (not_now, r) ↦ inr (neither never not_now, w ∙ r)
      ]
    ]
  where
    neither :
        ¬ WokenBy now ts p → ¬ ((is_due now t ≡ true) × (t.task_ptr ≡ p)) → ¬ WokenBy now (t ∷ ts) p
    neither never not_now (zero, h, e, q) = not_now (e, q)
    neither never not_now (suc i, h, e, q) = never (i, omega arith, e, q)

check_loop-timers :
    (now : ℕ) (ts : List Timer) (tasks : ℕ → Task) (i : ℕ)
    → get_or (check_loop now ts tasks).0 i no_timer
      ≡ (if is_due now (get_or ts i no_timer) then no_timer else get_or ts i no_timer)
unfolding check_loop check_timer
check_loop-timers now [] tasks i = refl
check_loop-timers now (t ∷ ts) tasks zero = elim (Bool-cases (is_due now t)) [
  | inl e ↦ rw e refl
  | inr e ↦ rw e refl
]
check_loop-timers now (t ∷ ts) tasks (suc i) =
    check_loop-timers now ts (check_timer now t tasks).1 i

-- A task with an expired timer is made running and keeps the rest of its fields, every other task
-- stays as it is; the expired timers are freed, and the others are kept.
pub check_timers-Woken :
    (k : Kernel) (p : ℕ)
    → ((WokenBy k.current_tick k.timer_arr p
          × ((check_timers k).tasks p ≡ record (k.tasks p) { state = running }))
        ⊎ ((¬ WokenBy k.current_tick k.timer_arr p) × ((check_timers k).tasks p ≡ k.tasks p)))
      × ((i : ℕ)
          → get_or (check_timers k).timer_arr i no_timer ≡ (
              if is_due k.current_tick (get_or k.timer_arr i no_timer)
              then no_timer
              else get_or k.timer_arr i no_timer))
unfolding check_timers
check_timers-Woken k p = (
  check_loop-Woken k.current_tick k.timer_arr k.tasks p,
  check_loop-timers k.current_tick k.timer_arr k.tasks,
)
