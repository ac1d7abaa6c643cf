-- ===== src/Scheduler/Recharge.antt =====
-- The recharging loop of `_schedule` (src/scheduler/scheduler.c).
use pell_os.Base.{
  ℕ, zero, suc, ◌^◌, ◌<◌, ◌≡◌, ◌≢◌, true, false, List, [], ◌∷◌, arith, ◌==◌, ==_iff, if◌then◌else◌,
  Bool-cases, inl, inr, get_or, length,
}
use pell_os.Base.Int.{ℤ, pos, negsuc, ◌≤ℤ◌, half, ◌+ℤ◌}
use pell_os.Kernel.{Task, TaskState, write_task}
use pell_os.Scheduler.{recharge, recharged}

-- What recharging keeps of a task is kept by the loop.
pub recharge_inv :
    (P : Task → Type 0) (array : List ℕ) (tasks : ℕ → Task) (p : ℕ)
    → ((t : Task) → P t → P (recharged t))
    → P (tasks p)
    → P (recharge array tasks p)
unfolding recharge write_task
recharge_inv P [] tasks p keep h = h
recharge_inv P (q ∷ qs) tasks p keep h = recharge_inv P qs _ p keep step
  where
    step : P ((if q == 0 then tasks else write_task tasks q (recharged (tasks q))) p)
    step = elim (Bool-cases (q == 0)) [
      | inl e ↦ rw e h
      | inr e ↦ elim (Bool-cases (p == q)) [
        | inl e' ↦ let same : p ≡ q = (==_iff p q).0 e' in rw (e, e', ← same) (keep (tasks p) h)
        | inr e' ↦ rw (e, e') h
      ]
    ]

-- A task of the array is recharged at least once.
pub recharge_reach :
    (P Q : Task → Type 0) (array : List ℕ) (tasks : ℕ → Task) (p n : ℕ)
    → ((t : Task) → P t → Q (recharged t))
    → ((t : Task) → Q t → P t)
    → n < length array
    → get_or array n 0 ≡ p
    → p ≢ 0
    → P (tasks p)
    → Q (recharge array tasks p)
unfolding recharge write_task
recharge_reach P Q [] tasks p n step weaken lt at ne h = absurd (omega arith)
recharge_reach P Q (q ∷ qs) tasks p zero step weaken lt at ne h =
    recharge_inv Q qs _ p (λ t ht. step t (weaken t ht)) now
  where
    now : Q ((if q == 0 then tasks else write_task tasks q (recharged (tasks q))) p)
    now =
        let e : (q == 0) ≡ false = ground arith in
        let e' : (p == q) ≡ true = ground arith in
        let same : q ≡ p = at in rw (e, e', same) (step (tasks p) h)
recharge_reach P Q (q ∷ qs) tasks p (suc n) step weaken lt at ne h =
    recharge_reach P Q qs _ p n step weaken (omega arith) at ne first
  where
    first : P ((if q == 0 then tasks else write_task tasks q (recharged (tasks q))) p)
    first = elim (Bool-cases (q == 0)) [
      | inl e ↦ rw e h
      | inr e ↦ elim (Bool-cases (p == q)) [
        | inl e' ↦
            let same : p ≡ q = (==_iff p q).0 e' in
            rw (e, e', ← same) (weaken (recharged (tasks p)) (step (tasks p) h))
        | inr e' ↦ rw (e, e') h
      ]
    ]

-- A task whose priority is set and whose counter has not run below `low`; the bound above is far
-- from what an `sint32_t` holds.
pub record IsCharged (low : ℕ) (s : TaskState) (t : Task) : Type 0 where
  pub state : t.state ≡ s
  pub priority_low : pos 1 ≤ℤ t.priority
  pub priority_high : t.priority ≤ℤ pos 255
  pub counter_low : pos low ≤ℤ t.counter
  pub counter_high : t.counter ≤ℤ pos (2 ^ 30)

half_bounds :
    (c : ℤ) → pos 0 ≤ℤ c → c ≤ℤ pos (2 ^ 30) → (pos 0 ≤ℤ half c) × (half c ≤ℤ pos (2 ^ 29))
unfolding half
half_bounds (pos n) h k = omega arith
half_bounds (negsuc n) h k = absurd (omega arith)

recharged_bounds :
    (c p : ℤ)
    → pos 0 ≤ℤ c
    → c ≤ℤ pos (2 ^ 30)
    → pos 1 ≤ℤ p
    → p ≤ℤ pos 255
    → (pos 1 ≤ℤ half c +ℤ p) × (half c +ℤ p ≤ℤ pos (2 ^ 30))
unfolding ◌+ℤ◌
recharged_bounds c p h k h' k' = ground (arith, half_bounds c h k)

pub recharged-IsCharged : (s : TaskState) (t : Task) → IsCharged 0 s t → IsCharged 1 s (recharged t)
recharged-IsCharged s t h =
    let b =
      recharged_bounds t.counter t.priority h.counter_low h.counter_high h.priority_low
        h.priority_high in
    record {
      state = h.state;
      priority_low = h.priority_low;
      priority_high = h.priority_high;
      counter_low = b.0;
      counter_high = b.1;
    }

pub IsCharged-weaken : (s : TaskState) (t : Task) → IsCharged 1 s t → IsCharged 0 s t
IsCharged-weaken s t h = record {
  state = h.state;
  priority_low = h.priority_low;
  priority_high = h.priority_high;
  counter_low = omega (arith, h.counter_low);
  counter_high = h.counter_high;
}
