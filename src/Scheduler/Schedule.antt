-- ===== src/Scheduler/Schedule.antt =====
-- `_schedule` and `schedule` (src/scheduler/scheduler.c) as a whole: the preemption counters stay
-- balanced, and the task chosen goes on.
use mathlib.Core.Path.{subst}
use pell_os.Base.{
  ℕ, suc, ◌<◌, ◌≡◌, ◌≢◌, refl, ap, ◌∙◌, sym, true, false, some, List, arith, ◌==◌, ==_iff,
  if◌then◌else◌, Bool-cases, inl, inr, ◌>>=◌, get_or, length,
}
use pell_os.Base.Int.{ℤ, pos, ◌≤ℤ◌, ◌<ℤ◌, ◌+ℤ◌, ◌-ℤ◌, to_sint32}
use pell_os.Kernel.{update_current_inv, Kernel, Task, running, is_running}
use pell_os.SoftwareTimer.{check_timers}
use pell_os.SoftwareTimer.Check.{check_timers_inv}
use pell_os.Scheduler.{
  task_limit, is_candidate, preempt_disable, preempt_enable, get_pid, pick, switch_to, finish,
  reschedule,
}
use pell_os.Scheduler.Recharge.{IsCharged}
use pell_os.Scheduler.Pick.{Chosen, pick-Chosen, pick_inv}

-- `task_array` has all its places.
abbrev pub Filled : Kernel → Type 0
Filled k = length k.task_array ≡ task_limit

abbrev pub task_at : Kernel → ℕ → ℕ
task_at k n = get_or k.task_array n 0

abbrev pub preempt_of : Kernel → ℕ → ℤ
preempt_of k p = (k.tasks p).preempt_count

-- The current task is in the array and may be preempted; every other task of the array is inside
-- `_schedule` or new, and holds its preemption off once.
pub record IsBalanced (k : Kernel) : Type 0 where
  pub size : Filled k
  pub place : ℕ
  pub place_in : place < task_limit
  pub current_at : task_at k place ≡ k.current
  pub current_ne : k.current ≢ 0
  pub preemptible : preempt_of k k.current ≡ pos 0
  pub others :
      (n : ℕ)
      → n < task_limit
      → task_at k n ≢ 0
      → task_at k n ≢ k.current
      → preempt_of k (task_at k n) ≡ pos 1

-- Every task of the array holds its preemption off once: the state inside `_schedule`.
abbrev AllHeld : (ℕ → Task) → List ℕ → Type 0
AllHeld tasks array =
    (n : ℕ)
    → n < task_limit
    → get_or array n 0 ≢ 0
    → (tasks (get_or array n 0)).preempt_count ≡ pos 1

-- The current task is running, and its counter is above 0 and not below that of any other running
-- task.
pub record IsScheduled (k : Kernel) : Type 0 where
  pub balanced : IsBalanced k
  pub is_running : (k.tasks k.current).state ≡ running
  pub positive : pos 0 <ℤ to_sint32 (k.tasks k.current).counter
  pub highest :
      (n : ℕ)
      → n < task_limit
      → is_candidate k.tasks (task_at k n) ≡ true
      → to_sint32 (k.tasks (task_at k n)).counter ≤ℤ to_sint32 (k.tasks k.current).counter

-- What `finish` makes of the state, in the terms of the task that was chosen.
pub record Finished (k : Kernel) (tasks : ℕ → Task) (q : ℕ) (k' : Kernel) : Type 0 where
  pub current : k'.current ≡ q
  pub array : k'.task_array ≡ k.task_array
  pub state : (p : ℕ) → (k'.tasks p).state ≡ (tasks p).state
  pub counter : (p : ℕ) → (k'.tasks p).counter ≡ (tasks p).counter
  preempt_self : preempt_of k' q ≡ (tasks q).preempt_count -ℤ pos 1
  preempt_other : (p : ℕ) → p ≢ q → preempt_of k' p ≡ (tasks p).preempt_count

switch_to_lem : (q : ℕ) (k : Kernel) → switch_to q k ≡ record k { current = q }
unfolding switch_to
switch_to_lem q k = elim (Bool-cases (k.current == q)) [
  | inl e ↦
      ap (λ b. if b then k else record k { current = q }) e
      ∙ ap (λ c. record k { current = c }) ((==_iff k.current q).0 e)
  | inr e ↦ ap (λ b. if b then k else record k { current = q }) e
]

pub finish_lem :
    (k : Kernel) (next : ℕ) (tasks : ℕ → Task)
    → finish k (next, tasks)
      ≡ preempt_enable (record k { tasks = tasks; current = get_or k.task_array next 0 })
unfolding finish
finish_lem k next tasks =
    ap preempt_enable (switch_to_lem (get_or k.task_array next 0) (record k { tasks = tasks }))

preempt_enable-Finished :
    (k : Kernel) (q : ℕ) (tasks : ℕ → Task)
    → Finished k tasks q (preempt_enable (record k { tasks = tasks; current = q }))
unfolding preempt_enable
preempt_enable-Finished k q tasks = record {
  current = refl;
  array = refl;
  state = λ p. ground arith;
  counter = λ p. ground arith;
  preempt_self = ground arith;
  preempt_other = λ p ne. ground arith;
}

pub finish-Finished :
    (k : Kernel) (next : ℕ) (tasks : ℕ → Task)
    → Finished k tasks (get_or k.task_array next 0) (finish k (next, tasks))
finish-Finished k next tasks =
    let q = get_or k.task_array next 0 in
    subst (Finished k tasks q) (sym (finish_lem k next tasks)) (preempt_enable-Finished k q tasks)

candidate-ne :
    (tasks : ℕ → Task) (p : ℕ) → is_candidate tasks p ≡ true → (p ≢ 0) × ((tasks p).state ≡ running)
candidate-ne tasks p h = ground arith

pos_one_less : (a : ℤ) → a ≡ pos 1 → a -ℤ pos 1 ≡ pos 0
unfolding ◌-ℤ◌
pos_one_less a e = rw e

module _ (k : Kernel) (start_idx next : ℕ) (tasks : ℕ → Task) {k' : Kernel}
    (f : Finished k tasks (task_at k next) k') (held : AllHeld tasks k.task_array)
    (c : Chosen tasks k.task_array start_idx next) where
  next_lt : next < task_limit
  next_lt = omega (arith, c.first.place)

  here :
      (is_candidate tasks (task_at k next) ≡ true)
      × (to_sint32 (tasks (task_at k next)).counter ≡ c.top)
  here =
      subst
        (λ n.
          (is_candidate tasks (get_or k.task_array n 0) ≡ true)
          × (to_sint32 (tasks (get_or k.task_array n 0)).counter ≡ c.top))
        (sym c.first.place) (c.first.candidate, c.first.highest)

  alive : (task_at k next ≢ 0) × ((tasks (task_at k next)).state ≡ running)
  alive = candidate-ne tasks (task_at k next) here.0

  Finished-IsBalanced : Filled k → IsBalanced k'
  Finished-IsBalanced size = record {
    size = ap length f.array ∙ size;
    place = next;
    place_in = next_lt;
    current_at = ap (λ l. get_or l next 0) f.array ∙ sym f.current;
    current_ne = λ e. alive.0 (sym f.current ∙ e);
    preemptible =
        ap (preempt_of k') f.current
        ∙ f.preempt_self
        ∙ pos_one_less (tasks (task_at k next)).preempt_count (held next next_lt alive.0);
    others = λ n hn ne other.
        let e : task_at k' n ≡ task_at k n = ap (λ l. get_or l n 0) f.array in
        ap (preempt_of k') e
        ∙ f.preempt_other (task_at k n) (λ q. other (e ∙ q ∙ sym f.current))
        ∙ held n hn (λ q. ne (e ∙ q));
  }

  counter_now : to_sint32 (k'.tasks k'.current).counter ≡ c.top
  counter_now =
      ap (λ p. to_sint32 (k'.tasks p).counter) f.current
      ∙ ap to_sint32 (f.counter (task_at k next))
      ∙ here.1

  Finished-IsScheduled : Filled k → IsScheduled k'
  Finished-IsScheduled size = record {
    balanced = Finished-IsBalanced size;
    is_running = ap (λ p. (k'.tasks p).state) f.current ∙ f.state (task_at k next) ∙ alive.1;
    positive = subst (λ x. pos 0 <ℤ x) (sym counter_now) c.positive;
    highest = λ n hn cand.
        let e : task_at k' n ≡ task_at k n = ap (λ l. get_or l n 0) f.array in
        let p = task_at k n in
        let same : is_candidate k'.tasks (task_at k' n) ≡ is_candidate tasks p =
          ap (is_candidate k'.tasks) e
          ∙ ap (λ s. if p == 0 then false else is_running s) (f.state p) in
        let value : to_sint32 (k'.tasks (task_at k' n)).counter ≡ to_sint32 (tasks p).counter =
          ap (λ p. to_sint32 (k'.tasks p).counter) e ∙ ap to_sint32 (f.counter p) in
        rw (value, counter_now) (c.others n hn (sym same ∙ cand));
  }

-- The state in which `_schedule` looks for a task.
abbrev pub entered : Kernel → Kernel
entered k = check_timers (preempt_disable k)

entered-preempt :
    (k : Kernel) (p : ℕ)
    → preempt_of (preempt_disable k) p ≡ pos 1
    → preempt_of (entered k) p ≡ pos 1
entered-preempt k p h =
    check_timers_inv (λ t. t.preempt_count ≡ pos 1) (preempt_disable k) p (λ t e. e) h

preempt_disable-held :
    (k : Kernel) (p : ℕ)
    → preempt_of k k.current ≡ pos 0
    → (p ≢ k.current → preempt_of k p ≡ pos 1)
    → preempt_of (preempt_disable k) p ≡ pos 1
unfolding preempt_disable
preempt_disable-held k p cur other = elim (Bool-cases (p == k.current)) [
  | inl e ↦ ground (arith, e, cur)
  | inr e ↦ ground (arith, e, other)
]

entered-held : (k : Kernel) → IsBalanced k → AllHeld (entered k).tasks k.task_array
entered-held k b n hn ne =
    entered-preempt k (task_at k n)
      (preempt_disable-held k (task_at k n) b.preemptible (λ other. b.others n hn ne other))

abbrev Charged : Task → Type 0
Charged = IsCharged 0 running

entered-Charged : (k : Kernel) (p : ℕ) → Charged (k.tasks p) → Charged ((entered k).tasks p)
unfolding preempt_disable
entered-Charged k p h = check_timers_inv Charged (preempt_disable k) p wake (
    update_current_inv Charged (λ t. record t { preempt_count = t.preempt_count +ℤ pos 1 }) k p hold
      h)
  where
    wake : (t : Task) → Charged t → Charged (record t { state = running })
    wake t c = record {
      state = refl;
      priority_low = c.priority_low;
      priority_high = c.priority_high;
      counter_low = c.counter_low;
      counter_high = c.counter_high;
    }

    hold : (t : Task) → Charged t → Charged (record t { preempt_count = t.preempt_count +ℤ pos 1 })
    hold t c = record {
      state = c.state;
      priority_low = c.priority_low;
      priority_high = c.priority_high;
      counter_low = c.counter_low;
      counter_high = c.counter_high;
    }

reschedule_lem :
    (fuel : ℕ) (k : Kernel) (r : ℕ × (ℕ → Task))
    → pick fuel (get_pid (entered k)) (entered k).task_array (entered k).tasks ≡ some r
    → reschedule fuel k ≡ some (finish (entered k) r)
unfolding reschedule
reschedule_lem fuel k r e = ap (λ o. o >>= (λ r. some (finish (entered k) r))) e

-- `_schedule` returns, within two rounds of its loop, if the preemption counters are balanced and
-- some task of the array is running with a priority from 1 to 255 and a counter from 0 to 2 ^ 30.
-- Then the current task is running, and
-- its counter is above 0 and the highest among the running tasks of the array; it may be preempted,
-- and every other task of the array holds its preemption off once, as before.
pub reschedule-IsScheduled :
    (fuel n : ℕ) (k : Kernel)
    → IsBalanced k
    → n < task_limit
    → task_at k n ≢ 0
    → IsCharged 0 running (k.tasks (task_at k n))
    → (k' : Kernel) × (reschedule (suc (suc fuel)) k ≡ some k') × IsScheduled k'
unfolding check_timers preempt_disable
reschedule-IsScheduled fuel n k b hn ne charged =
    let k₁ = entered k in
    let start_idx = get_pid k₁ in
    let (next, tasks, e, chosen) =
      pick-Chosen k₁.task_array start_idx fuel n k₁.tasks hn (omega (arith, b.size)) ne
        (entered-Charged k (task_at k n) charged) in
    let held : AllHeld tasks k.task_array = λ m hm ne'.
      pick_inv k₁.task_array start_idx (λ t. t.preempt_count ≡ pos 1) (suc (suc fuel)) k₁.tasks
        (task_at k m) (next, tasks) e (λ t h. h) (entered-held k b m hm ne') in
    (
      finish k₁ (next, tasks),
      reschedule_lem (suc (suc fuel)) k (next, tasks) e,
      Finished-IsScheduled k₁ start_idx next tasks (finish-Finished k₁ next tasks) held chosen
          b.size,
    )
