-- ===== src/Scheduler/Fork/Enter.antt =====
-- A new task in the task array (`kernel_fork` of src/scheduler/scheduler.c, from the second half of
-- its body on).
use pell_os.Base.{
  ltb, true, refl, ℕ, ◌+◌, ◌%◌, ◌<◌, ◌≡◌, ◌≢◌, sym, ap, ◌∙◌, false, some, arith, ◌==◌, ==_iff,
  ==_refl, if◌then◌else◌, Bool-cases, inl, inr, set, length-set, get_or-set,
}
use pell_os.Base.Int.{pos, ◌+ℤ◌, ◌-ℤ◌}
use pell_os.Mm.Pages.{Pages}
use pell_os.Kernel.{Kernel, Task, write_task, write_task-ne}
use pell_os.Scheduler.{task_limit, preempt_disable, preempt_enable}
use pell_os.Scheduler.Schedule.{task_at, preempt_of, IsBalanced}
use pell_os.Scheduler.Fork.{enter_task}

pub disable-preempt :
    (k : Kernel) → preempt_of k k.current ≡ pos 0 → preempt_of (preempt_disable k) k.current ≡ pos 1
unfolding preempt_disable
disable-preempt k h = ground arith

enable-other : (k : Kernel) (p : ℕ) → p ≢ k.current → (preempt_enable k).tasks p ≡ k.tasks p
unfolding preempt_enable
enable-other k p ne =
    write_task-ne k.tasks k.current
      (record (k.tasks k.current) { preempt_count = preempt_of k k.current -ℤ pos 1 }) p ne

disable-other : (k : Kernel) (p : ℕ) → p ≢ k.current → (preempt_disable k).tasks p ≡ k.tasks p
unfolding preempt_disable
disable-other k p ne =
    write_task-ne k.tasks k.current
      (record (k.tasks k.current) { preempt_count = preempt_of k k.current +ℤ pos 1 }) p ne

enable-preempt :
    (k : Kernel) → preempt_of k k.current ≡ pos 1 → preempt_of (preempt_enable k) k.current ≡ pos 0
unfolding preempt_enable
enable-preempt k h = ground arith

-- Holding off preemption keeps the priority.
pub parent_priority :
    (k : Kernel) → ((preempt_disable k).tasks k.current).priority ≡ (k.tasks k.current).priority
unfolding preempt_disable
parent_priority k = rw (==_refl k.current)

-- `kernel_fork` of a task `child` at `page`, which is no task yet.
module _ (k : Kernel) (page : ℕ) (child : Task) (p' : Pages) where
  -- The state before the last statement.
  abbrev entered : Kernel
  entered = record (preempt_disable k) {
    pages = p';
    tasks = write_task (preempt_disable k).tasks page child;
    n_tasks = (k.n_tasks + 1) % 256;
    task_array = set k.task_array k.n_tasks page;
  }

  abbrev pub forked : Kernel
  forked = preempt_enable entered

  pub enter_task-forked :
      (translate : (ℕ → ℕ) → ℕ → ℕ → ℕ) (ret_from_fork : ℕ)
      → k.n_tasks < task_limit
      → enter_task translate ret_from_fork page child (record (preempt_disable k) { pages = p' })
        ≡ some (k.n_tasks, forked)
  unfolding enter_task preempt_disable
  enter_task-forked translate ret_from_fork room =
      let e : ltb k.n_tasks task_limit ≡ true = ground arith in rw e refl

module _ (k : Kernel) (page : ℕ) (child : Task) (p' : Pages) (held : child.preempt_count ≡ pos 1)
    (b : IsBalanced k) (room : k.n_tasks < task_limit) (free : task_at k k.n_tasks ≡ 0)
    (found : page ≢ 0) (fresh : (n : ℕ) → n < task_limit → task_at k n ≢ page) where
  page-ne_current : page ≢ k.current
  page-ne_current e = fresh b.place b.place_in (b.current_at ∙ sym e)

  pub new_task : (forked k page child p').tasks page ≡ child
  unfolding preempt_disable preempt_enable
  new_task =
      let e : (page == k.current) ≡ false = ground (arith, page-ne_current) in rw (e, ==_refl page)

  preempt-forked :
      (p : ℕ) → p ≢ page → p ≢ k.current → preempt_of (forked k page child p') p ≡ preempt_of k p
  preempt-forked p ne other =
      ap (λ t. t.preempt_count)
        (enable-other (entered k page child p') p (unfold preempt_disable in other))
      ∙ ap (λ t. t.preempt_count) (write_task-ne (preempt_disable k).tasks page child p ne)
      ∙ ap (λ t. t.preempt_count) (disable-other k p other)

  preempt-forked_current : preempt_of (forked k page child p') k.current ≡ pos 0
  unfolding preempt_disable
  preempt-forked_current = enable-preempt (entered k page child p') (
      ap (λ t. t.preempt_count)
        (write_task-ne (preempt_disable k).tasks page child k.current
          (λ e. page-ne_current (sym e)))
      ∙ disable-preempt k b.preemptible)

  pub entry_lem :
      (n : ℕ) → task_at (forked k page child p') n ≡ (if k.n_tasks == n then page else task_at k n)
  unfolding preempt_disable preempt_enable
  entry_lem n = get_or-set k.task_array k.n_tasks n page 0 (omega (arith, b.size))

  pub kept_place : (n : ℕ) → n ≢ k.n_tasks → task_at (forked k page child p') n ≡ task_at k n
  kept_place n ne = ground (arith, entry_lem n)

  others_held :
      (n : ℕ)
      → n < task_limit
      → task_at (forked k page child p') n ≢ 0
      → task_at (forked k page child p') n ≢ k.current
      → preempt_of (forked k page child p') (task_at (forked k page child p') n) ≡ pos 1
  others_held n hn ne other = elim (Bool-cases (n == k.n_tasks)) [
    | inl e ↦
        let e' : n ≡ k.n_tasks = (==_iff n k.n_tasks).0 e in
        ap (preempt_of (forked k page child p'))
          (ap (task_at (forked k page child p')) e' ∙ ground (arith, entry_lem k.n_tasks))
        ∙ ap (λ t. t.preempt_count) new_task
        ∙ held
    | inr e ↦
        let same = kept_place n (λ q. ground (arith, (==_iff n k.n_tasks).1 q)) in
        let other' : task_at k n ≢ k.current = λ q. other (same ∙ q) in
        ap (preempt_of (forked k page child p')) same
        ∙ preempt-forked (task_at k n) (fresh n hn) other'
        ∙ b.others n hn (λ q. ne (same ∙ q)) other'
  ]

  pub forked-IsBalanced : IsBalanced (forked k page child p')
  unfolding preempt_disable preempt_enable
  forked-IsBalanced = record {
    size = length-set k.task_array k.n_tasks page ∙ b.size;
    place = b.place;
    place_in = b.place_in;
    current_at =
        kept_place b.place (λ e. b.current_ne (sym b.current_at ∙ ap (task_at k) e ∙ free))
        ∙ b.current_at;
    current_ne = b.current_ne;
    preemptible = preempt-forked_current;
    others = others_held;
  }
