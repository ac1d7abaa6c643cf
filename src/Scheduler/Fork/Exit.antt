-- ===== src/Scheduler/Fork/Exit.antt =====
-- `exit_task` (src/scheduler/scheduler.c): the task that exits is not chosen again.
use pell_os.Base.{
  ℕ, suc, ◌<◌, ◌⊎◌, none, ◌>>=◌, Option, false, ◌≡◌, ◌≢◌, arith, refl, sym, ap, ◌∙◌, some, inl, inr,
  Bool-cases, ◌==◌, ==_refl, if◌then◌else◌,
}
use mathlib.Core.Path.{subst}
use pell_os.Base.Int.{pos}
use pell_os.Mm.Pages.{Pages, free_page}
use pell_os.KernelHeap.{KernelHeap, Call, returns, fault, out_of_fuel}
use pell_os.Fs.Fd.Destroy.{destroy_fd_table, destroy_fd_table-null}
use pell_os.Kernel.{Kernel, running, zombie, update_current, write_task}
use pell_os.SoftwareTimer.Wake.{WokenBy}
use pell_os.Scheduler.{task_limit, preempt_disable, preempt_enable, get_pid, reschedule, schedule}
use pell_os.Scheduler.Recharge.{IsCharged}
use pell_os.Scheduler.Schedule.{
  task_at, preempt_of, IsBalanced, IsScheduled, reschedule-IsScheduled,
}
use pell_os.Scheduler.Kept.{reschedule-state, reschedule-pages}
use pell_os.Scheduler.Pid.{get_pid-place}
use pell_os.Scheduler.Fork.{exit_task}

-- The pages after the exit: the task's stack, if it has one, is given back.
abbrev pub pages_after : Kernel → Pages
pages_after k =
    let stack = (k.tasks k.current).stack in if stack == 0 then k.pages else free_page stack k.pages

-- The task at `ptr` is marked.
abbrev marked : Kernel → ℕ → Kernel
marked k ptr = record (preempt_disable k) {
  tasks =
      write_task (preempt_disable k).tasks ptr
        (record ((preempt_disable k).tasks ptr) { state = zombie });
}

-- The call of `schedule`, when the stack is given back.
abbrev end_at : ℕ → Kernel → ℕ → Option Kernel
end_at fuel k ptr =
    let k₂ = marked k ptr in
    let stack = (k₂.tasks k₂.current).stack in
    schedule fuel
      (preempt_enable (if stack == 0 then k₂ else record k₂ { pages = free_page stack k₂.pages }))

-- The state that `_schedule` gets.
abbrev exited : Kernel → Kernel
exited k =
    update_current (λ t. record t { counter = pos 0 })
      (preempt_enable (record (marked k k.current) { pages = pages_after k }))

-- What follows `destroy_fd_table`, by what it comes to.
abbrev rest_of : ℕ → Kernel → ℕ → Call KernelHeap → Option (KernelHeap × Kernel)
rest_of fuel k ptr r = elim r [
  | returns h' ↦ end_at fuel k ptr >>= (λ k'. some (h', k'))
  | fault ↦ none
  | out_of_fuel ↦ none
]

exit_task-end_at :
    (heap_fuel fuel bitmap file : ℕ) (h : KernelHeap) (k : Kernel)
    → exit_task heap_fuel fuel bitmap file h k
      ≡ rest_of fuel k (task_at k (get_pid k)) (destroy_fd_table heap_fuel bitmap file h)
unfolding exit_task get_pid preempt_disable
exit_task-end_at heap_fuel fuel bitmap file h k = refl

marked-stack :
    (k : Kernel) → ((marked k k.current).tasks k.current).stack ≡ (k.tasks k.current).stack
unfolding preempt_disable write_task
marked-stack k = rw (==_refl k.current) refl

free_stack :
    (k : Kernel) (stack old : ℕ)
    → stack ≡ old
    → (if stack == 0 then k else record k { pages = free_page stack k.pages })
      ≡ record k { pages = if old == 0 then k.pages else free_page old k.pages }
free_stack k stack old e = elim (Bool-cases (old == 0)) [
  | inl z ↦ rw (e, z) refl
  | inr z ↦ rw (e, z) refl
]

marked-pages :
    (k : Kernel)
    → (let k₂ = marked k k.current in
        let stack = (k₂.tasks k₂.current).stack in
        if stack == 0 then k₂ else record k₂ { pages = free_page stack k₂.pages })
      ≡ record (marked k k.current) { pages = pages_after k }
unfolding preempt_disable
marked-pages k =
    free_stack (marked k k.current) ((marked k k.current).tasks k.current).stack
      (k.tasks k.current).stack (unfold preempt_disable in marked-stack k)

end_at-exited :
    (fuel : ℕ) (k : Kernel)
    → IsBalanced k
    → end_at fuel k (task_at k (get_pid k)) ≡ reschedule fuel (exited k)
unfolding schedule
end_at-exited fuel k b =
    ap (end_at fuel k) (get_pid-place k b).1
    ∙ ap (λ k. schedule fuel (preempt_enable k)) (marked-pages k)

exited-other : (k : Kernel) (p : ℕ) → p ≢ k.current → (exited k).tasks p ≡ k.tasks p
unfolding preempt_disable preempt_enable write_task
exited-other k p ne = let e : (p == k.current) ≡ false = ground (arith, ne) in rw e refl

exited-state : (k : Kernel) → ((exited k).tasks k.current).state ≡ zombie
unfolding preempt_disable preempt_enable write_task
exited-state k = rw (==_refl k.current) refl

exited-preempt :
    (k : Kernel) → preempt_of k k.current ≡ pos 0 → preempt_of (exited k) k.current ≡ pos 0
unfolding preempt_disable preempt_enable write_task
exited-preempt k e = ground (arith, e)

exited-IsBalanced : (k : Kernel) → IsBalanced k → IsBalanced (exited k)
unfolding preempt_disable preempt_enable
exited-IsBalanced k b = record {
  size = b.size;
  place = b.place;
  place_in = b.place_in;
  current_at = b.current_at;
  current_ne = b.current_ne;
  preemptible = unfold preempt_disable preempt_enable in exited-preempt k b.preemptible;
  others = λ n h ne other.
      ap (λ t. t.preempt_count)
        (unfold preempt_disable preempt_enable in exited-other k (task_at k n) other)
      ∙ b.others n h ne other;
}

exited-pages : (k : Kernel) → (exited k).pages ≡ pages_after k
unfolding preempt_disable preempt_enable
exited-pages k = refl

-- The end of the task, with the state of the kernel after it.
pub record Exited (k k' : Kernel) : Type 0 where
  pub scheduled : IsScheduled k'
  pub other : k'.current ≢ k.current
  pub is_zombie : (k'.tasks k.current).state ≡ zombie
  pub page_bitmap : k'.pages.page_bitmap ≡ (pages_after k).page_bitmap

module _ (fuel n : ℕ) (k : Kernel) (b : IsBalanced k)
    (asleep : ¬ WokenBy k.current_tick k.timer_arr k.current) (lt : n < task_limit)
    (ne : task_at k n ≢ 0) (other : task_at k n ≢ k.current)
    (charged : IsCharged 0 running (k.tasks (task_at k n))) where
  end_at-Exited :
      (k' : Kernel) × (end_at (suc (suc fuel)) k (task_at k (get_pid k)) ≡ some k') × Exited k k'
  unfolding preempt_disable preempt_enable
  end_at-Exited =
      let charged' : IsCharged 0 running ((exited k).tasks (task_at k n)) =
        subst (IsCharged 0 running)
          (sym (unfold preempt_disable preempt_enable in exited-other k (task_at k n) other))
          charged in
      let (k', e, s) =
        reschedule-IsScheduled fuel n (exited k) (exited-IsBalanced k b) lt ne charged' in
      let state : (k'.tasks k.current).state ≡ zombie =
        reschedule-state (suc (suc fuel)) (exited k) k' k.current e asleep
        ∙ (unfold preempt_disable preempt_enable in exited-state k) in
      (
        k',
        end_at-exited (suc (suc fuel)) k b ∙ e,
        record {
          scheduled = s;
          other = λ same.
              absurd (cc (sym state ∙ sym (ap (λ p. (k'.tasks p).state) same) ∙ s.is_running));
          is_zombie = state;
          page_bitmap =
              ap (λ (p : Pages). p.page_bitmap)
                (reschedule-pages (suc (suc fuel)) (exited k) k' e ∙ exited-pages k);
        },
      )

  rest_of-Exited :
      (r : Call KernelHeap)
      → ((h' : KernelHeap) × (r ≡ returns h')
          × (k' : Kernel) × (rest_of (suc (suc fuel)) k (task_at k (get_pid k)) r ≡ some (h', k'))
          × Exited k k')
        ⊎ (((h' : KernelHeap) → r ≢ returns h')
            × (rest_of (suc (suc fuel)) k (task_at k (get_pid k)) r ≡ none))
  rest_of-Exited (returns h') =
      let (k', e, x) = end_at-Exited in
      inl (h', refl, k', ap (λ o. o >>= (λ k'. some (h', k'))) e, x)
  rest_of-Exited fault = inr (λ h' e. absurd (cc e), refl)
  rest_of-Exited out_of_fuel = inr (λ h' e. absurd (cc e), refl)

-- With balanced preemption counters, no timer that wakes the current task, and another task in the
-- array that is running with a priority from 1 to 255 and a counter from 0 to 2 ^ 30. If
-- `destroy_fd_table` returns, as it does for a task without a table, `exit_task` returns with its heap,
-- within two rounds of the loop of `_schedule`; else `exit_task` has no result either. After it, the
-- task that called it is a zombie, another one is current, which is running with the highest counter,
-- and the preemption counters stay balanced. The bitmap of the page allocator is kept, but for what
-- `free_page` does to it for the task's stack, if that is not null.
pub exit_task-Exited :
    (heap_fuel fuel n bitmap file : ℕ) (h : KernelHeap) (k : Kernel)
    → IsBalanced k
    → ¬ WokenBy k.current_tick k.timer_arr k.current
    → n < task_limit
    → task_at k n ≢ 0
    → task_at k n ≢ k.current
    → IsCharged 0 running (k.tasks (task_at k n))
    → (((h' : KernelHeap) × (destroy_fd_table heap_fuel bitmap file h ≡ returns h')
          × (k' : Kernel) × (exit_task heap_fuel (suc (suc fuel)) bitmap file h k ≡ some (h', k'))
          × Exited k k')
        ⊎ (((h' : KernelHeap) → destroy_fd_table heap_fuel bitmap file h ≢ returns h')
            × (exit_task heap_fuel (suc (suc fuel)) bitmap file h k ≡ none)))
      × (destroy_fd_table heap_fuel 0 0 h ≡ returns h)
exit_task-Exited heap_fuel fuel n bitmap file h k b asleep lt ne other charged =
    let e = exit_task-end_at heap_fuel (suc (suc fuel)) bitmap file h k in
    (
      elim (rest_of-Exited fuel n k b asleep lt ne other charged
          (destroy_fd_table heap_fuel bitmap file h)) [
            | inl (h', q, k', e', x) ↦ inl (h', q, k', e ∙ e', x)
            | inr (never, e') ↦ inr (never, e ∙ e')
          ],
      destroy_fd_table-null heap_fuel h,
    )
