-- ===== src/Scheduler/Tick.antt =====
-- `scheduler_tick` (src/scheduler/scheduler.c): when the current task is preempted.
use mathlib.Core.Path.{subst}
use pell_os.Base.{
  sym, Bool, ℕ, suc, ◌<◌, ◌≡◌, ◌≢◌, ◌⊎◌, refl, ap, ◌∙◌, true, false, ◌||◌, some, arith, ◌==◌,
  ==_iff, ==_refl, if◌then◌else◌, Bool-cases, inl, inr,
}
use pell_os.Base.Int.{ℤ, pos, ◌≤ℤ◌, ◌<ℤ◌, ltb_ℤ, ◌-ℤ◌}
use pell_os.Kernel.{Kernel, running, write_task, update_current, update_current_inv}
use pell_os.SoftwareTimer.{increment_tick}
use pell_os.Scheduler.{task_limit, reschedule, scheduler_tick}
use pell_os.Scheduler.Recharge.{IsCharged}
use pell_os.Scheduler.Schedule.{
  task_at, preempt_of, IsBalanced, IsScheduled, reschedule-IsScheduled,
}

-- The state after the first two statements: one tick is counted and taken off the slice.
abbrev pub ticked : Kernel → Kernel
ticked k = increment_tick (update_current (λ t. record t { counter = t.counter -ℤ pos 1 }) k)

abbrev slice_over : Kernel → Kernel
slice_over k = update_current (λ t. record t { counter = pos 0 }) (ticked k)

preempt-ticked : (k : Kernel) (p : ℕ) → preempt_of (ticked k) p ≡ preempt_of k p
unfolding increment_tick
preempt-ticked k p =
    update_current_inv (λ t. t.preempt_count ≡ preempt_of k p)
      (λ t. record t { counter = t.counter -ℤ pos 1 }) k p (λ t e. e) refl

counter-ticked :
    (k : Kernel) → ((ticked k).tasks k.current).counter ≡ (k.tasks k.current).counter -ℤ pos 1
unfolding increment_tick write_task
counter-ticked k = rw (==_refl k.current)

-- The test of `scheduler_tick` for going on.
abbrev goes_on : Kernel → Bool
goes_on k =
    ltb_ℤ (pos 0) ((ticked k).tasks k.current).counter
    || ltb_ℤ (pos 0) (preempt_of (ticked k) k.current)

scheduler_tick_lem :
    (fuel : ℕ) (k : Kernel) (b : Bool)
    → goes_on k ≡ b
    → scheduler_tick fuel k ≡ (if b then some (ticked k) else reschedule fuel (slice_over k))
unfolding scheduler_tick
scheduler_tick_lem fuel k b h =
    ap (λ b. if b then some (ticked k) else reschedule fuel (slice_over k)) h

or_right : (a : Bool) (c : ℤ) → pos 0 <ℤ c → (a || ltb_ℤ (pos 0) c) ≡ true
or_right a c h = ground arith

slice_test :
    (c p : ℤ) → p ≡ pos 0 → (ltb_ℤ (pos 0) (c -ℤ pos 1) || ltb_ℤ (pos 0) p) ≡ ltb_ℤ (pos 1) c
unfolding ◌-ℤ◌
slice_test c p h = ground arith

goes_on-slice : (k : Kernel) → IsBalanced k → goes_on k ≡ ltb_ℤ (pos 1) (k.tasks k.current).counter
goes_on-slice k b =
    ap (λ c. ltb_ℤ (pos 0) c || ltb_ℤ (pos 0) (preempt_of (ticked k) k.current)) (counter-ticked k)
    ∙ slice_test (k.tasks k.current).counter (preempt_of (ticked k) k.current)
        (preempt-ticked k k.current ∙ b.preemptible)

ltb→lt_ℤ : (a b : ℤ) → ltb_ℤ a b ≡ true → a <ℤ b
ltb→lt_ℤ a b h = ground arith

ltb→le_ℤ : (a b : ℤ) → ltb_ℤ a b ≡ false → b ≤ℤ a
ltb→le_ℤ a b h = ground arith

-- While a task holds its preemption off, a tick never takes the processor from it.
pub scheduler_tick-held :
    (fuel : ℕ) (k : Kernel)
    → pos 0 <ℤ preempt_of k k.current
    → (k' : Kernel) × (scheduler_tick fuel k ≡ some k')
      × (k'.current ≡ k.current)
      × ((p : ℕ) → preempt_of k' p ≡ preempt_of k p)
unfolding increment_tick
scheduler_tick-held fuel k h = (
  ticked k,
  scheduler_tick_lem fuel k true (
      or_right _ (preempt_of (ticked k) k.current)
        (subst (λ c. pos 0 <ℤ c) (sym (preempt-ticked k k.current)) h)),
  refl,
  preempt-ticked k,
)

slice_over-IsBalanced : (k : Kernel) → IsBalanced k → IsBalanced (slice_over k)
unfolding increment_tick
slice_over-IsBalanced k b = record {
  size = b.size;
  place = b.place;
  place_in = b.place_in;
  current_at = b.current_at;
  current_ne = b.current_ne;
  preemptible = same k.current ∙ b.preemptible;
  others = λ n hn ne other. same (task_at k n) ∙ b.others n hn ne other;
}
  where
    same : (p : ℕ) → preempt_of (slice_over k) p ≡ preempt_of k p
    same p =
        update_current_inv (λ t. t.preempt_count ≡ preempt_of k p)
          (λ t. record t { counter = pos 0 }) (ticked k) p (λ t e. e) (preempt-ticked k p)

slice_over-IsCharged :
    (k : Kernel) (p : ℕ)
    → IsCharged 0 running (k.tasks p)
    → IsCharged 0 running ((slice_over k).tasks p)
unfolding increment_tick write_task
slice_over-IsCharged k p c = elim (Bool-cases (p == k.current)) [
  | inl e ↦
      let same : p ≡ k.current = (==_iff p k.current).0 e in
      rw (e, ← same, ==_refl p)
        (record {
          state = c.state;
          priority_low = c.priority_low;
          priority_high = c.priority_high;
          counter_low = omega arith;
          counter_high = omega arith;
        })
  | inr e ↦ rw e c
]

-- A tick of the timer goes on with the current task as long as it has more than one tick of its
-- slice left. Otherwise it ends the slice and reschedules: with balanced preemption counters
-- and some task of the array running, of a priority from 1 to 255 and with a counter from 0 to
-- 2 ^ 30, a running task with the highest counter, above 0, becomes the current one, and the
-- preemption counters stay balanced. Both hold under these conditions.
pub scheduler_tick-slice :
    (fuel n : ℕ) (k : Kernel)
    → IsBalanced k
    → n < task_limit
    → task_at k n ≢ 0
    → IsCharged 0 running (k.tasks (task_at k n))
    → ((pos 1 <ℤ (k.tasks k.current).counter)
        × (scheduler_tick (suc (suc fuel)) k ≡ some (ticked k))
        × ((ticked k).current ≡ k.current))
      ⊎ (((k.tasks k.current).counter ≤ℤ pos 1)
          × ((k' : Kernel) × (scheduler_tick (suc (suc fuel)) k ≡ some k') × IsScheduled k'))
unfolding increment_tick
scheduler_tick-slice fuel n k b hn ne charged =
    let c = (k.tasks k.current).counter in
    elim (Bool-cases (ltb_ℤ (pos 1) c)) [
      | inl more ↦ inl (
        ltb→lt_ℤ (pos 1) c more,
        scheduler_tick_lem (suc (suc fuel)) k true (goes_on-slice k b ∙ more),
        refl,
      )
      | inr over ↦
          let (k', e, s) =
            reschedule-IsScheduled fuel n (slice_over k) (slice_over-IsBalanced k b) hn ne
              (slice_over-IsCharged k (task_at k n) charged) in
          inr (
            ltb→le_ℤ (pos 1) c over,
            (k', scheduler_tick_lem (suc (suc fuel)) k false (goes_on-slice k b ∙ over) ∙ e, s),
          )
    ]
