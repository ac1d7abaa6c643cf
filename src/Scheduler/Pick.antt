-- ===== src/Scheduler/Pick.antt =====
-- The endless loop of `_schedule` (src/scheduler/scheduler.c): when it ends, and with which task.
use mathlib.Core.Path.{subst, sym}
use pell_os.Base.{
  ℕ, zero, suc, ◌+◌, ◌-◌, ◌%◌, ◌^◌, ◌<◌, ◌≡◌, ◌≢◌, inl, inr, refl, ap, ◌∙◌, Bool, true, false, none,
  some, List, arith, if◌then◌else◌, Bool-cases, eq_of_some, get_or, length,
}
use pell_os.Base.Int.{ℤ, pos, negsuc, ◌≤ℤ◌, ◌<ℤ◌, ltb_ℤ, to_sint32, to_sint32_lem}
use pell_os.Kernel.{Task, running}
use pell_os.Scheduler.{select, recharge, recharged, pick, is_candidate, task_limit}
use pell_os.Scheduler.Select.{First, Best, select-Best}
use pell_os.Scheduler.Recharge.{
  recharge_inv, recharge_reach, IsCharged, recharged-IsCharged, IsCharged-weaken,
}

-- The task at place `next` of the array exists, is running, has a counter above 0 that no running
-- task of the array exceeds, and is the first such task from place `start_idx` on.
pub record Chosen (tasks : ℕ → Task) (array : List ℕ) (start_idx next : ℕ) : Type 0 where
  pub offset : ℕ
  pub top : ℤ
  pub first : First tasks array start_idx task_limit top next offset
  pub positive : pos 0 <ℤ top
  pub others :
      (n : ℕ)
      → n < task_limit
      → is_candidate tasks (get_or array n 0) ≡ true
      → to_sint32 (tasks (get_or array n 0)).counter ≤ℤ top

-- The round in which place `n` is looked at.
round_of : ℕ → ℕ → ℕ
round_of start_idx n = (n + task_limit - start_idx % task_limit) % task_limit

round_of-place :
    (start_idx n : ℕ)
    → n < task_limit
    → (round_of start_idx n < task_limit) × ((start_idx + round_of start_idx n) % task_limit ≡ n)
unfolding round_of
round_of-place start_idx n h = omega arith

small : (a : ℤ) → pos 0 ≤ℤ a → a ≤ℤ pos (2 ^ 30) → to_sint32 a ≡ a
small a h k = to_sint32_lem a (ground arith)

positive_of : (a c : ℤ) → pos 1 ≤ℤ a → a ≤ℤ pos (2 ^ 30) → to_sint32 a ≤ℤ c → pos 0 <ℤ c
positive_of a c h k up = let up' = subst (λ b. b ≤ℤ c) (small a (ground arith) k) up in ground arith

lt→ltb_ℤ : (c : ℤ) → pos 0 <ℤ c → ltb_ℤ (pos 0) c ≡ true
lt→ltb_ℤ c h = ground arith

ltb→lt_ℤ : (c : ℤ) → ltb_ℤ (pos 0) c ≡ true → pos 0 <ℤ c
ltb→lt_ℤ c h = ground arith

candidate_of :
    (tasks : ℕ → Task) (p : ℕ) → p ≢ 0 → (tasks p).state ≡ running → is_candidate tasks p ≡ true
candidate_of tasks p ne e = ground arith

recharge-candidate :
    (array : List ℕ) (tasks : ℕ → Task) (p : ℕ)
    → is_candidate tasks p ≡ false
    → is_candidate (recharge array tasks) p ≡ false
recharge-candidate array tasks p h =
    let e : (recharge array tasks p).state ≡ (tasks p).state =
      recharge_inv (λ t. t.state ≡ (tasks p).state) array tasks p (λ t e. e) refl in
    ground (arith, e)

module _ (array : List ℕ) (start_idx : ℕ) where
  upper_at :
      (tasks : ℕ → Task) (c : ℤ) (next n : ℕ)
      → Best tasks array start_idx task_limit c next
      → n < task_limit
      → is_candidate tasks (get_or array n 0) ≡ true
      → to_sint32 (tasks (get_or array n 0)).counter ≤ℤ c
  upper_at tasks c next n b h cand =
      let (lt, place) = round_of-place start_idx n h in
      subst (λ m. to_sint32 (tasks (get_or array m 0)).counter ≤ℤ c) place
        (b.upper (round_of start_idx n) lt
          (subst (λ m. is_candidate tasks (get_or array m 0) ≡ true) (sym place) cand))

  Best-Chosen :
      (tasks : ℕ → Task) (c : ℤ) (next : ℕ)
      → Best tasks array start_idx task_limit c next
      → pos 0 <ℤ c
      → Chosen tasks array start_idx next
  Best-Chosen tasks c next b h = elim b.origin [
    | inl (e, _) ↦ absurd (ground (arith, e))
    | inr (m, f) ↦ record {
      offset = m;
      top = c;
      first = f;
      positive = h;
      others = λ n hn cand. upper_at tasks c next n b hn cand;
    }
  ]

  abbrev Result : ℕ → (ℕ → Task) → Type 0
  Result fuel tasks =
      (next : ℕ) × (tasks' : ℕ → Task) × (pick fuel start_idx array tasks ≡ some (next, tasks'))
      × Chosen tasks' array start_idx next

  abbrev best : (ℕ → Task) → ℤ × ℕ
  best tasks = select tasks array task_limit 0 start_idx (negsuc 0) 0

  pick-suc :
      (fuel : ℕ) (tasks : ℕ → Task) (b : Bool)
      → ltb_ℤ (pos 0) (best tasks).0 ≡ b
      → pick (suc fuel) start_idx array tasks ≡ (
          if b
          then some ((best tasks).1, tasks)
          else pick fuel start_idx array (recharge array tasks))
  unfolding pick
  pick-suc fuel tasks b h =
      ap
        (λ b.
          if b
          then some ((best tasks).1, tasks)
          else pick fuel start_idx array (recharge array tasks))
        h

  -- What recharging keeps of a task is kept by the whole loop.
  pub pick_inv :
      (P : Task → Type 0) (fuel : ℕ) (tasks : ℕ → Task) (p : ℕ) (r : ℕ × (ℕ → Task))
      → pick fuel start_idx array tasks ≡ some r
      → ((t : Task) → P t → P (recharged t))
      → P (tasks p)
      → P (r.1 p)
  pick_inv P zero tasks p r e keep h = absurd (unfold pick in cc)
  pick_inv P (suc fuel) tasks p r e keep h = elim (Bool-cases (ltb_ℤ (pos 0) (best tasks).0)) [
    | inl now ↦
        let same : tasks ≡ r.1 =
          ap (λ (x : ℕ × (ℕ → Task)). x.1) (eq_of_some (sym (pick-suc fuel tasks true now) ∙ e)) in
        subst (λ (t : ℕ → Task). P (t p)) same h
    | inr later ↦
        pick_inv P fuel (recharge array tasks) p r (sym (pick-suc fuel tasks false later) ∙ e) keep
          (recharge_inv P array tasks p keep h)
  ]

  -- A running task with a positive counter ends the loop in this round.
  pick-now :
      (fuel n : ℕ) (tasks : ℕ → Task)
      → n < task_limit
      → is_candidate tasks (get_or array n 0) ≡ true
      → IsCharged 1 running (tasks (get_or array n 0))
      → Result (suc fuel) tasks
  pick-now fuel n tasks h cand charged =
      let b = select-Best tasks array start_idx in
      let t = tasks (get_or array n 0) in
      let up = upper_at tasks (best tasks).0 (best tasks).1 n b h cand in
      let low = positive_of t.counter (best tasks).0 charged.counter_low charged.counter_high up in
      (
        (best tasks).1,
        tasks,
        pick-suc fuel tasks true (lt→ltb_ℤ (best tasks).0 low),
        Best-Chosen tasks (best tasks).0 (best tasks).1 b low,
      )

  -- The loop ends in the second round at the latest, if some running task of the array has a
  -- priority from 1 to 255 and a counter from 0 to 2 ^ 30, with a task that is `Chosen`.
  pub pick-Chosen :
      (fuel n : ℕ) (tasks : ℕ → Task)
      → n < task_limit
      → n < length array
      → get_or array n 0 ≢ 0
      → IsCharged 0 running (tasks (get_or array n 0))
      → Result (suc (suc fuel)) tasks
  pick-Chosen fuel n tasks h hn ne charged = elim (Bool-cases (ltb_ℤ (pos 0) (best tasks).0)) [
    | inl now ↦ (
      (best tasks).1,
      tasks,
      pick-suc (suc fuel) tasks true now,
      Best-Chosen tasks (best tasks).0 (best tasks).1 (select-Best tasks array start_idx)
          (ltb→lt_ℤ (best tasks).0 now),
    )
    | inr later ↦
        let p = get_or array n 0 in
        let charged' =
          recharge_reach (IsCharged 0 running) (IsCharged 1 running) array tasks p n
            (recharged-IsCharged running) (IsCharged-weaken running) hn refl ne charged in
        let (next, tasks', e, chosen) =
          pick-now fuel n (recharge array tasks) h
            (candidate_of (recharge array tasks) p ne charged'.state) charged' in
        (next, tasks', pick-suc (suc fuel) tasks false later ∙ e, chosen)
  ]

  -- With no running task in the array the loop never ends.
  pub pick-spins :
      (fuel : ℕ) (tasks : ℕ → Task)
      → ((n : ℕ) → n < task_limit → is_candidate tasks (get_or array n 0) ≡ false)
      → pick fuel start_idx array tasks ≡ none
  pick-spins zero tasks idle = unfold pick in refl
  pick-spins (suc fuel) tasks idle = elim (select-Best tasks array start_idx).origin [
    | inl (e, _) ↦
        pick-suc fuel tasks false (ground (arith, e))
        ∙ pick-spins fuel (recharge array tasks)
            (λ n hn. recharge-candidate array tasks (get_or array n 0) (idle n hn))
    | inr (m, f) ↦
        absurd (ground (arith, f.candidate, idle ((start_idx + m) % task_limit) (omega arith)))
  ]
