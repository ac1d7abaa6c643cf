-- ===== src/Scheduler/Fork/User.antt =====
-- `kernel_fork` (src/scheduler/scheduler.c) of a user task: the child is a copy of its parent with an
-- address space of its own.
use pell_os.Base.{
  ℕ, ◌+◌, ◌*◌, ◌<◌, ◌≤◌, ◌≡◌, ◌≢◌, refl, sym, ap, ◌∙◌, false, some, arith, ◌==◌, bit_and, set,
  get_or, take, length, List, [], ◌∷◌, All,
}
use mathlib.Core.Path.{subst}
use pell_os.Mm.Pages.{Pages, get_next_free_page}
use pell_os.Mm.Pages.Alloc.{IsValid, Allocated}
use pell_os.Mm.Pages.Count.{free_pages, get_next_free_page-counts}
use pell_os.Mm.Paging.{
  MemoryMap, UserPage, allocate_kernel_page, copy_virtual_memory, max_process_pages,
  virtual_address_start,
}
use pell_os.Mm.Paging.Walk.{physical}
use pell_os.Mm.Paging.Tree.{Label, IsInUse, SameWords, kept_in_use, kept_word, walk_kept}
use pell_os.Mm.Paging.CopyRound.{processor, IsDistinct, IsParent, IsCopied, Copied}
use pell_os.Mm.Paging.Copy.{copy_virtual_memory-Copied}
use pell_os.Kernel.{Kernel, Task, running, zero_task, task_flags_kernel_thread}
use pell_os.Scheduler.{task_limit, preempt_disable, preempt_enable}
use pell_os.Scheduler.Schedule.{task_at, IsBalanced}
use pell_os.Scheduler.Fork.{get_task_pt_regs, started, fork_at, kernel_fork}
use pell_os.Scheduler.Fork.Enter.{
  forked, new_task, kept_place, entry_lem, forked-IsBalanced, enter_task-forked, parent_priority,
}
use pell_os.Scheduler.Fork.Parent.{
  no_tables, IsData-no_tables, IsParent-Allocated, copies-Allocated, empty-IsSpace, user_task,
  prepare-user, fork_at-page, kernel_fork-fork_at, parent_kept,
}

-- What a user fork promises: the child stands at the next place and will return from the fork with 0
-- to where its parent was; its pages are copies of the parent's in an address space of its own; the
-- parent's addresses are translated as before, and no page in use is changed.
pub record IsForked (k : Kernel) (page : ℕ) (us : List UserPage) (k' : Kernel) : Type 0 where
  pub entry : task_at k' k.n_tasks ≡ page
  pub places : (n : ℕ) → n ≢ k.n_tasks → task_at k' n ≡ task_at k n
  pub state : (k'.tasks page).state ≡ running
  pub counter : (k'.tasks page).counter ≡ (k.tasks k.current).priority
  pub balanced : IsBalanced k'
  pub returns_0 : get_or (k'.tasks page).pt_regs.regs 0 0 ≡ 0
  pub returns_to : (k'.tasks page).pt_regs.pc ≡ (k.tasks k.current).pt_regs.pc
  pub copies :
      All
        (IsCopied no_tables
          (k.tasks k.current).mm.pagedirectory
          (zero_task.mm, k.pages)
          ((k'.tasks page).mm, k'.pages))
        us
  pub parent_kept :
      (va : ℕ)
      → processor k'.pages.words (k.tasks k.current).mm.pagedirectory va
        ≡ processor k.pages.words (k.tasks k.current).mm.pagedirectory va
  pub kept : (t : ℕ) → IsInUse k.pages t → SameWords k.pages.words k'.pages.words t

get_or-set_first : (xs : List ℕ) → get_or (set xs 0 0) 0 0 ≡ 0
get_or-set_first [] = refl
get_or-set_first (x ∷ xs) = refl

module _ (ret_from_fork clone_flags fn args : ℕ) (k : Kernel) (label : Label) (b : IsBalanced k)
    (room : k.n_tasks < task_limit) (free : task_at k k.n_tasks ≡ 0)
    (fresh : (n : ℕ) → n < task_limit → task_at k n ≢ (allocate_kernel_page k.pages).0) where
  abbrev src : MemoryMap
  src = (k.tasks k.current).mm

  abbrev us : List UserPage
  us = take src.userpages_count src.userpages

  abbrev p₁ : Pages
  p₁ = (get_next_free_page k.pages).1

  abbrev page : ℕ
  page = (get_next_free_page k.pages).0 + virtual_address_start

  module _ (m : ℕ) (a : Allocated k.pages (get_next_free_page k.pages).0 p₁ m) (v : IsValid p₁)
      (count : free_pages k.pages ≡ free_pages p₁ + 1)
      (h : IsParent label no_tables src.pagedirectory us k.pages)
      (user : bit_and clone_flags task_flags_kernel_thread ≡ 0)
      (enough : length us * 5 < free_pages k.pages) (tables : length us * 5 < max_process_pages)
      (differ : IsDistinct us) where
    page_lem : allocate_kernel_page k.pages ≡ (page, p₁)
    unfolding allocate_kernel_page
    page_lem =
        let there : ((get_next_free_page k.pages).0 == 0) ≡ false = ground (arith, a.address) in
        rw there refl

    c :
        Copied no_tables src.pagedirectory us
          (zero_task.mm, p₁)
          (copy_virtual_memory processor src (zero_task.mm, p₁))
    c =
        copy_virtual_memory-Copied label no_tables src (zero_task.mm, p₁)
          (IsParent-Allocated label src.pagedirectory us k.pages _ p₁ m a v h) (empty-IsSpace p₁ v)
          (record { entries = omega (arith, tables); pages = omega (arith, enough, count) })
          (omega (arith, tables)) differ

    -- The address space of the child and its task.
    abbrev child : Task
    child =
        started processor ret_from_fork clone_flags (get_task_pt_regs page)
          ((preempt_disable k).tasks k.current)
          (user_task ((preempt_disable k).tasks k.current) c.space.0)

    abbrev after : Kernel
    after = forked k page child c.space.1

    kernel_fork-after :
        kernel_fork processor ret_from_fork clone_flags fn args k ≡ some (k.n_tasks, after)
    unfolding preempt_disable
    kernel_fork-after =
        let found : page ≢ 0 = λ z. omega (arith, z) in
        kernel_fork-fork_at processor ret_from_fork clone_flags fn args k
        ∙ ap (fork_at processor ret_from_fork clone_flags fn args (preempt_disable k)) page_lem
        ∙ fork_at-page processor ret_from_fork clone_flags fn args (preempt_disable k) page p₁
            c.space.1 (user_task ((preempt_disable k).tasks k.current) c.space.0) found
            (prepare-user processor ret_from_fork clone_flags fn args
              ((preempt_disable k).tasks k.current) p₁ c.space.1 c.space.0 user
              (ap (λ mm. copy_virtual_memory processor mm (zero_task.mm, p₁)) (parent_kept k).0
                ∙ c.result))
        ∙ enter_task-forked k page child c.space.1 processor ret_from_fork room

    -- No task is at the new page yet.
    fresh_page : (n : ℕ) → n < task_limit → task_at k n ≢ page
    fresh_page n lt e = fresh n lt (e ∙ sym (ap (λ (r : ℕ × Pages). r.0) page_lem))

    new : after.tasks page ≡ child
    new = new_task k page child c.space.1 refl b room free (λ z. omega (arith, z)) fresh_page

    kept_page : (t : ℕ) → IsInUse k.pages t → SameWords k.pages.words c.space.1.words t
    kept_page t u i lt =
        (c.kept t (IsData-no_tables p₁ t (kept_in_use k.pages _ p₁ m a t u))).1 i lt
        ∙ kept_word k.pages _ p₁ m a t i u lt

    after-IsForked : IsForked k page us after
    unfolding preempt_enable
    after-IsForked = record {
      entry = ground (
        arith,
        entry_lem k page child c.space.1 refl b room free (λ z. omega (arith, z)) fresh_page
            k.n_tasks,
      );
      places =
          kept_place k page child c.space.1 refl b room free (λ z. omega (arith, z)) fresh_page;
      state = ap (λ t. t.state) new;
      counter = ap (λ t. t.counter) new ∙ parent_priority k;
      balanced =
          forked-IsBalanced k page child c.space.1 refl b room free (λ z. omega (arith, z))
            fresh_page;
      returns_0 = ap (λ t. get_or t.pt_regs.regs 0 0) new ∙ get_or-set_first _;
      returns_to = ap (λ t. t.pt_regs.pc) new ∙ ap (λ r. r.pc) (parent_kept k).1;
      copies =
          subst
            (λ mm.
              All (IsCopied no_tables src.pagedirectory (zero_task.mm, k.pages) (mm, c.space.1)) us)
            (sym (ap (λ t. t.mm) new))
            (copies-Allocated label src.pagedirectory us k.pages _ p₁ m a v h zero_task.mm c.space
              c.copies);
      parent_kept = λ va.
          ap (λ entry. physical entry va)
            (walk_kept label k.pages h.tree c.space.1.words
              (λ s e q j x. kept_page s (h.tree.in_use s e q x) j) 3 src.pagedirectory va []
              h.root);
      kept = kept_page;
    }

    forked_lem :
        (k' : Kernel) × (kernel_fork processor ret_from_fork clone_flags fn args k
          ≡ some (k.n_tasks, k'))
        × IsForked k (allocate_kernel_page k.pages).0 us k'
    forked_lem = (
      after,
      kernel_fork-after,
      subst (λ q. IsForked k q us after) (sym (ap (λ (r : ℕ × Pages). r.0) page_lem))
          after-IsForked,
    )

-- With balanced preemption counters and an empty place left, a fork of a task whose page directory
-- and user pages are tables and pages in use, no two with the same page number and at most three of
-- them, and five free pages for each and one more, at a page that is no task yet: `kernel_fork`
-- returns the next place. The child there is running, gets 0 from the fork, goes on where its parent
-- does, and has a copy of each of the parent's pages in an address space of its own. The parent's
-- addresses are translated as before, no page in use is changed, the other places are kept, and the
-- counters stay balanced.
pub kernel_fork-IsForked :
    (ret_from_fork clone_flags fn args : ℕ) (k : Kernel) (label : Label)
    → IsBalanced k
    → k.n_tasks < task_limit
    → task_at k k.n_tasks ≡ 0
    → ((n : ℕ) → n < task_limit → task_at k n ≢ (allocate_kernel_page k.pages).0)
    → bit_and clone_flags task_flags_kernel_thread ≡ 0
    → IsParent label no_tables
        (k.tasks k.current).mm.pagedirectory
        (take (k.tasks k.current).mm.userpages_count (k.tasks k.current).mm.userpages)
        k.pages
    → length (take (k.tasks k.current).mm.userpages_count (k.tasks k.current).mm.userpages) * 5
      < free_pages k.pages
    → length (take (k.tasks k.current).mm.userpages_count (k.tasks k.current).mm.userpages) ≤ 3
    → IsDistinct (take (k.tasks k.current).mm.userpages_count (k.tasks k.current).mm.userpages)
    → (k' : Kernel) × (kernel_fork processor ret_from_fork clone_flags fn args k
        ≡ some (k.n_tasks, k'))
      × IsForked k
          (allocate_kernel_page k.pages).0
          (take (k.tasks k.current).mm.userpages_count (k.tasks k.current).mm.userpages)
          k'
kernel_fork-IsForked ret_from_fork clone_flags fn args k label b room free fresh user h enough few
      differ =
    let (m, a, v, count) = get_next_free_page-counts k.pages h.tree.valid (omega (arith, enough)) in
    forked_lem ret_from_fork clone_flags fn args k label b room free fresh m a v count h user enough
      (omega (arith, few)) differ
