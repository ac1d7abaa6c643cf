-- ===== src/Scheduler/Select.antt =====
-- The selection loop of `_schedule` (src/scheduler/scheduler.c): which task it chooses.
use mathlib.Core.Path.{subst}
use pell_os.Base.{
  ℕ, zero, suc, ◌+◌, ◌%◌, ◌<◌, ◌≡◌, ◌⊎◌, inl, inr, refl, ap, Bool, true, false, ◌&&◌, List, arith,
  ◌==◌, ==_iff, if◌then◌else◌, Bool-cases, get_or,
}
use pell_os.Base.Int.{ℤ, negsuc, ◌≤ℤ◌, ◌<ℤ◌, ltb_ℤ, to_sint32}
use pell_os.Kernel.{Task}
use pell_os.Scheduler.{select, is_candidate, task_limit}

module _ (tasks : ℕ → Task) (array : List ℕ) (start_idx : ℕ) where
  -- The task that round `m` looks at.
  abbrev pub looked_at : ℕ → ℕ
  looked_at m = get_or array ((start_idx + m) % task_limit) 0

  abbrev pub counter_at : ℕ → ℤ
  counter_at m = to_sint32 (tasks (looked_at m)).counter

  -- Round `m` is the first of those below `i` that looks at a task with the highest counter, `c`.
  pub record First (i : ℕ) (c : ℤ) (next m : ℕ) : Type 0 where
    pub before : m < i
    pub place : next ≡ (start_idx + m) % task_limit
    pub candidate : is_candidate tasks (looked_at m) ≡ true
    pub highest : counter_at m ≡ c
    pub nonneg : negsuc 0 <ℤ c
    pub earlier : (n : ℕ) → n < m → is_candidate tasks (looked_at n) ≡ true → counter_at n <ℤ c

  -- After `i` rounds: `c` bounds the counters seen, and was seen, unless it is still -1.
  pub record Best (i : ℕ) (c : ℤ) (next : ℕ) : Type 0 where
    pub upper : (m : ℕ) → m < i → is_candidate tasks (looked_at m) ≡ true → counter_at m ≤ℤ c
    pub origin : ((c ≡ negsuc 0) × (next ≡ 0)) ⊎ ((m : ℕ) × First i c next m)

  First-suc : {i : ℕ} {c : ℤ} {next m : ℕ} → First i c next m → First (i + 1) c next m
  First-suc f = record {
    before = omega (arith, f.before);
    place = f.place;
    candidate = f.candidate;
    highest = f.highest;
    nonneg = f.nonneg;
    earlier = f.earlier;
  }

  Best-better :
      (i : ℕ) (c : ℤ) (next : ℕ)
      → Best i c next
      → negsuc 0 ≤ℤ c
      → (is_candidate tasks (looked_at i) && ltb_ℤ c (counter_at i)) ≡ true
      → Best (i + 1) (counter_at i) ((start_idx + i) % task_limit)
  Best-better i c next b low h = record {
    upper = λ m hm cand. elim (Bool-cases (m == i)) [
      | inl e ↦ rw ((==_iff m i).0 e) (omega arith)
      | inr e ↦ ground (arith, b.upper m (ground (arith, (==_iff m i).1)) cand)
    ];
    origin = inr (
      i,
      record {
        before = omega arith;
        place = refl;
        candidate = ground arith;
        highest = refl;
        nonneg = ground arith;
        earlier = λ n hn cand. ground (arith, b.upper n hn cand);
      },
    );
  }

  Best-kept :
      (i : ℕ) (c : ℤ) (next : ℕ)
      → Best i c next
      → (is_candidate tasks (looked_at i) && ltb_ℤ c (counter_at i)) ≡ false
      → Best (i + 1) c next
  Best-kept i c next b h = record {
    upper = λ m hm cand. elim (Bool-cases (m == i)) [
      | inl e ↦
          let e' : m ≡ i = (==_iff m i).0 e in
          ground (arith, e', subst (λ n. is_candidate tasks (looked_at n) ≡ true) e' cand)
      | inr e ↦ b.upper m (ground (arith, (==_iff m i).1)) cand
    ];
    origin = elim b.origin [ inl e ↦ inl e | inr (m, f) ↦ inr (m, First-suc f) ];
  }

  select-suc :
      (left i : ℕ) (c : ℤ) (next : ℕ) (b : Bool)
      → (is_candidate tasks (looked_at i) && ltb_ℤ c (counter_at i)) ≡ b
      → select tasks array (suc left) i start_idx c next
        ≡ select tasks array left
            (i + 1)
            start_idx
            (if b then counter_at i else c)
            (if b then (start_idx + i) % task_limit else next)
  unfolding select
  select-suc left i c next b h =
      ap
        (λ b.
          select tasks array left (i + 1) start_idx (if b then counter_at i else c)
            (if b then (start_idx + i) % task_limit else next))
        h

  select-Best_from :
      (left i : ℕ) (c : ℤ) (next : ℕ)
      → negsuc 0 ≤ℤ c
      → Best i c next
      → let (c', next') = select tasks array left i start_idx c next in Best (i + left) c' next'
  unfolding select
  select-Best_from zero i c next low b = let e : i + 0 ≡ i = omega arith in rw e b
  select-Best_from (suc left) i c next low b =
      let e : i + suc left ≡ i + 1 + left = omega arith in
      elim (Bool-cases (is_candidate tasks (looked_at i) && ltb_ℤ c (counter_at i))) [
        | inl h ↦
            rw (e, select-suc left i c next true h)
              (select-Best_from left (i + 1) (counter_at i) ((start_idx + i) % task_limit)
                (ground arith) (Best-better i c next b low h))
        | inr h ↦
            rw (e, select-suc left i c next false h)
              (select-Best_from left (i + 1) c next low (Best-kept i c next b h))
      ]

  pub select-Best :
      let (c, next) = select tasks array task_limit 0 start_idx (negsuc 0) 0 in
      Best task_limit c next
  select-Best =
      select-Best_from task_limit 0 (negsuc 0) 0 (omega arith)
        (record { upper = λ m hm. absurd (omega arith); origin = inl (refl, refl) })
