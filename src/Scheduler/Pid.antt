-- ===== src/Scheduler/Pid.antt =====
-- Task numbers (`get_pid`, `set_task_priority` of src/scheduler/scheduler.c).
use pell_os.Base.{
  ℕ, zero, suc, ◌+◌, ◌<◌, ◌≡◌, ◌≢◌, inl, inr, refl, ◌∙◌, true, false, some, List, [], ◌∷◌, arith,
  ◌==◌, ==_iff, ltb, Bool-cases, length, get_or,
}
use pell_os.Base.Int.{pos}
use pell_os.Kernel.{Kernel, Task, write_task, write_task_self, write_task-ne}
use pell_os.Scheduler.{task_limit, find_pid, get_pid, set_task_priority}
use pell_os.Scheduler.Schedule.{task_at, IsBalanced}

-- A place of the array that holds the task.
record HeldAt (ptr : ℕ) (ps : List ℕ) (i r : ℕ) : Type 0 where
  offset : ℕ
  place : r ≡ i + offset
  in_range : offset < length ps
  holds : get_or ps offset 0 ≡ ptr

find_pid-HeldAt :
    (ptr : ℕ) (ps : List ℕ) (i m : ℕ)
    → m < length ps
    → get_or ps m 0 ≡ ptr
    → HeldAt ptr ps i (find_pid ptr ps i)
unfolding find_pid
find_pid-HeldAt ptr [] i m h e = absurd (omega arith)
find_pid-HeldAt ptr (p ∷ ps) i zero h e =
    rw ((==_iff p ptr).1 e)
      (record { offset = 0; place = omega arith; in_range = omega arith; holds = e })
find_pid-HeldAt ptr (p ∷ ps) i (suc m) h e =
    let f = find_pid-HeldAt ptr ps (i + 1) m (omega arith) e in
    elim (Bool-cases (p == ptr)) [
      | inl q ↦ rw q (record {
        offset = 0;
        place = omega arith;
        in_range = omega arith;
        holds = (==_iff p ptr).0 q;
      })
      | inr q ↦ rw q (record {
        offset = suc f.offset;
        place = omega (arith, f.place);
        in_range = omega (arith, f.in_range);
        holds = f.holds;
      })
    ]

pub get_pid-place :
    (k : Kernel) → IsBalanced k → (get_pid k < task_limit) × (task_at k (get_pid k) ≡ k.current)
unfolding get_pid
get_pid-place k b =
    let f =
      find_pid-HeldAt k.current k.task_array 0 b.place (omega (arith, b.size, b.place_in))
        b.current_at in
    let e : find_pid k.current k.task_array 0 ≡ f.offset = f.place ∙ omega arith in
    rw e (omega (arith, f.in_range, b.size), f.holds)

-- With balanced preemption counters, a task that sets the priority of the number that `get_pid`
-- returns sets its own priority, and changes nothing else of any task.
pub set_task_priority-get_pid :
    (priority : ℕ) (k : Kernel)
    → IsBalanced k
    → (k' : Kernel) × (set_task_priority (get_pid k) priority k ≡ some k')
      × (k'.tasks k.current ≡ record (k.tasks k.current) { priority = pos priority })
      × ((p : ℕ) → p ≢ k.current → k'.tasks p ≡ k.tasks p)
unfolding set_task_priority
set_task_priority-get_pid priority k b =
    let (lt, here) = get_pid-place k b in
    let t : Task = record (k.tasks k.current) { priority = pos priority } in
    let inside : ltb (get_pid k) task_limit ≡ true = ground arith in
    let alive : (k.current == 0) ≡ false = ground (arith, b.current_ne) in
    (
      record k { tasks = write_task k.tasks k.current t },
      rw (inside, here, alive) refl,
      write_task_self k.tasks k.current t,
      write_task-ne k.tasks k.current t,
    )
