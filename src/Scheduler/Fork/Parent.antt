-- ===== src/Scheduler/Fork/Parent.antt =====
-- The first half of `kernel_fork` (src/scheduler/scheduler.c) for a user task: what the child gets from
-- its parent.
use pell_os.Base.{
  ℕ, ◌+◌, ◌*◌, ◌≡◌, ◌≢◌, refl, sym, ap, ◌∙◌, true, false, none, some, arith, ◌==◌, ==_iff, ==_refl,
  bit_and, set, List, [], All, All-map, All-map₂,
}
use mathlib.Core.Path.{subst}
use pell_os.Mm.Pages.{Pages}
use pell_os.Mm.Pages.Alloc.{IsValid, Allocated}
use pell_os.Mm.Paging.{MemoryMap, UserPage, Space, allocate_kernel_page, copy_virtual_memory}
use pell_os.Mm.Paging.Walk.{physical}
use pell_os.Mm.Paging.Tree.{
  Label, IsInUse, IsData, IsTree-Allocated, kept_in_use, kept_word, walk-Allocated,
}
use pell_os.Mm.Paging.Directory.{IsSpace}
use pell_os.Mm.Paging.CopyRound.{processor, IsParent, IsCopied}
use pell_os.Kernel.{Kernel, Task, write_task, zero_task, task_flags_kernel_thread}
use pell_os.Scheduler.{preempt_disable}
use pell_os.Scheduler.Fork.{get_task_pt_regs, started, prepare, enter_task, fork_at, kernel_fork}

-- A task that is set up for the first time has no tables.
abbrev pub no_tables : Label
no_tables t = none

pub IsData-no_tables : (p : Pages) (t : ℕ) → IsInUse p t → IsData no_tables p t
IsData-no_tables p t u = (u, λ d path h. absurd (cc h))

-- The parent is one still after the child's own page is handed out.
module _ (label : Label) (dir : ℕ) (us : List UserPage) (p : Pages) (page : ℕ) (p' : Pages) (m : ℕ)
    (a : Allocated p page p' m) (v : IsValid p') (h : IsParent label no_tables dir us p) where
  processor-Allocated : (va : ℕ) → processor p'.words dir va ≡ processor p.words dir va
  processor-Allocated va =
      ap (λ entry. physical entry va) (walk-Allocated p page p' m a label h.tree 3 dir va [] h.root)

  pub IsParent-Allocated : IsParent label no_tables dir us p'
  IsParent-Allocated = record {
    tree = IsTree-Allocated p page p' m a label h.tree v;
    root = h.root;
    apart = h.apart;
    sources =
        All-map (λ (u : UserPage). IsData no_tables p (processor p.words dir u.virtual_adr))
          (λ (u : UserPage). IsData no_tables p' (processor p'.words dir u.virtual_adr)) us
          (λ u d.
            subst (IsData no_tables p') (sym (processor-Allocated u.virtual_adr))
              (kept_in_use p page p' m a _ d.0, d.1))
          h.sources;
  }

  -- Copies of pages as they are then are copies of the pages as they were.
  pub copies-Allocated :
      (mm : MemoryMap) (space : Space)
      → All (IsCopied no_tables dir (mm, p') space) us
      → All (IsCopied no_tables dir (mm, p) space) us
  copies-Allocated mm space =
      All-map₂ (λ (u : UserPage). IsData no_tables p (processor p.words dir u.virtual_adr))
        (IsCopied no_tables dir (mm, p') space) (IsCopied no_tables dir (mm, p) space) us
        (λ u d i. record {
          page = i.page;
          found = i.found;
          fresh = λ t x. i.fresh t (kept_in_use p page p' m a t x.0, x.1);
          words = λ k lt.
              i.words k lt
              ∙ ap (λ t. p'.words (t + 8 * k)) (processor-Allocated u.virtual_adr)
              ∙ kept_word p page p' m a _ k d.0 lt;
        })
        h.sources

pub empty-IsSpace : (p : Pages) → IsValid p → IsSpace no_tables (zero_task.mm, p)
empty-IsSpace p v = record {
  tree = record {
    valid = v;
    in_use = λ t d path h. absurd (cc h);
    entry = λ t d path i h lt. absurd (cc h);
  };
  root = λ ne. absurd (ne refl);
}

-- The new task of a user fork, with the address space `mm`.
abbrev pub user_task : Task → MemoryMap → Task
user_task parent mm = record zero_task {
  mm = mm;
  pt_regs = record parent.pt_regs { regs = set parent.pt_regs.regs 0 0 };
}

module _ (translate : (ℕ → ℕ) → ℕ → ℕ → ℕ) (ret_from_fork clone_flags fn args : ℕ) where
  pub prepare-user :
      (parent : Task) (p p' : Pages) (mm : MemoryMap)
      → bit_and clone_flags task_flags_kernel_thread ≡ 0
      → copy_virtual_memory translate parent.mm (zero_task.mm, p) ≡ some (true, (mm, p'))
      → prepare translate ret_from_fork clone_flags fn args parent zero_task p
        ≡ some (user_task parent mm, p')
  unfolding prepare
  prepare-user parent p p' mm user e = rw (user, e) refl

  pub fork_at-page :
      (k : Kernel) (page : ℕ) (p p' : Pages) (task : Task)
      → page ≢ 0
      → prepare translate ret_from_fork clone_flags fn args (k.tasks k.current) zero_task p
        ≡ some (task, p')
      → fork_at translate ret_from_fork clone_flags fn args k (page, p)
        ≡ enter_task translate ret_from_fork page
            (started translate ret_from_fork clone_flags
              (get_task_pt_regs page)
              (k.tasks k.current)
              task)
            (record k { pages = p' })
  unfolding fork_at
  fork_at-page k page p p' task found e =
      let there : (page == 0) ≡ false = ground (arith, found, ==_iff page 0) in rw (there, e) refl

  pub kernel_fork-fork_at :
      (k : Kernel)
      → kernel_fork translate ret_from_fork clone_flags fn args k
        ≡ fork_at translate ret_from_fork clone_flags fn args
            (preempt_disable k)
            (allocate_kernel_page k.pages)
  unfolding kernel_fork preempt_disable
  kernel_fork-fork_at k = refl

-- Holding off preemption keeps the address space and the saved registers.
pub parent_kept :
    (k : Kernel)
    → (((preempt_disable k).tasks k.current).mm ≡ (k.tasks k.current).mm)
      × (((preempt_disable k).tasks k.current).pt_regs ≡ (k.tasks k.current).pt_regs)
unfolding preempt_disable write_task
parent_kept k = rw (==_refl k.current) (refl, refl)
