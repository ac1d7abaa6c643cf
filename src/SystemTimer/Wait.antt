-- ===== src/SystemTimer/Wait.antt =====
-- How long `wait_time` (src/peripherals/system_timer.c) waits.
use pell_os.Base.{
  ℕ, zero, suc, ◌+◌, ◌-◌, ◌%◌, ◌^◌, ◌<◌, ◌≤◌, ◌≡◌, ◌⊎◌, inl, inr, refl, ap, arith, Bool-cases, some,
  ltb, ltb→lt,
}
use mathlib.Core.Path.{subst}
use pell_os.SystemTimer.{TimerRegs, wait_until, wait_time}

module _ (clo : ℕ → ℕ) where
  -- The loop ends at the first read that is not below `end_time`, after `n` others.
  pub record Waited (end_time n : ℕ) (s s' : TimerRegs) : Type 0 where
    pub before : (k : ℕ) → k < n → clo (s.reads + k) < end_time
    pub last : end_time ≤ clo (s.reads + n)
    pub reads : s'.reads ≡ s.reads + n + 1
    pub cs : s'.cs ≡ s.cs
    pub c1 : s'.c1 ≡ s.c1

  -- One more round before.
  Waited-before :
      (end_time n : ℕ) (s s' : TimerRegs)
      → clo s.reads < end_time
      → Waited end_time n (record s { reads = s.reads + 1 }) s'
      → Waited end_time (suc n) s s'
  Waited-before end_time n s s' below w = record {
    before = before;
    last =
        let e : s.reads + 1 + n ≡ s.reads + suc n = omega arith in omega (arith, w.last, ap clo e);
    reads = omega (arith, w.reads);
    cs = w.cs;
    c1 = w.c1;
  }
    where
      before : (k : ℕ) → k < suc n → clo (s.reads + k) < end_time
      before zero lt = let e : s.reads + 0 ≡ s.reads = omega arith in omega (arith, below, ap clo e)
      before (suc k) lt =
          let e : s.reads + 1 + k ≡ s.reads + suc k = omega arith in
          omega (arith, w.before k (omega (arith, lt)), ap clo e)

  wait_until-Waited :
      (fuel end_time m : ℕ) (s : TimerRegs)
      → m < fuel
      → end_time ≤ clo (s.reads + m)
      → (n : ℕ) × (s' : TimerRegs) × (wait_until clo fuel end_time s ≡ some s')
        × (n ≤ m)
        × Waited end_time n s s'
  unfolding wait_until
  wait_until-Waited zero end_time m s lt late = absurd (omega (arith, lt))
  wait_until-Waited (suc fuel) end_time m s lt late =
      let here : s.reads + 0 ≡ s.reads = omega arith in
      elim (Bool-cases (ltb (clo s.reads) end_time)) [
        | inl early ↦
            let s₁ : TimerRegs = record s { reads = s.reads + 1 } in
            let below : clo s.reads < end_time = ground arith in
            let some_more : 0 < m = elim (Bool-cases (ltb 0 m)) [
              | inl e ↦ ground arith
              | inr e ↦
                  let z : s.reads + m ≡ s.reads = ground arith in
                  absurd (omega (arith, below, late, ap clo z))
            ] in
            let next : s.reads + m ≡ s.reads + 1 + (m - 1) = omega (arith, some_more) in
            let (n, s', e, few, w) =
              wait_until-Waited fuel end_time (m - 1) s₁ (omega (arith, lt, some_more))
                (omega (arith, late, ap clo next)) in
            (
              suc n,
              s',
              rw early e,
              omega (arith, few, some_more),
              Waited-before end_time n s s' below w,
            )
        | inr now ↦ (
          0,
          record s { reads = s.reads + 1 },
          rw now refl,
          omega arith,
          record {
            before = λ k lt'. absurd (omega (arith, lt'));
            last = ground (arith, ap clo here);
            reads = omega arith;
            cs = refl;
            c1 = refl;
          },
        )
      ]

-- With a counter that has not wrapped by the read after the first, and that is at the end of the wait
-- at one of the reads that the fuel allows: `wait_time` returns. If the start of the wait and its
-- length add up below 2 ^ 32, the last read is the first that is as late as their sum; otherwise it
-- returns after one read, however long the wait was to be.
pub wait_time-Waited :
    (clo : ℕ → ℕ) (fuel time_us m : ℕ) (s : TimerRegs)
    → clo s.reads < 2 ^ 32
    → time_us < 2 ^ 32
    → clo s.reads ≤ clo (s.reads + 1)
    → m < fuel
    → (clo s.reads + time_us) % 2 ^ 32 ≤ clo (s.reads + 1 + m)
    → (s' : TimerRegs) × (wait_time clo fuel time_us s ≡ some (time_us, s'))
      × (((clo s.reads + time_us < 2 ^ 32)
            × (n : ℕ) × Waited clo (clo s.reads + time_us) n (record s { reads = s.reads + 1 }) s')
          ⊎ ((2 ^ 32 ≤ clo s.reads + time_us) × (s'.reads ≡ s.reads + 2)))
unfolding wait_time
wait_time-Waited clo fuel time_us m s start_small small next lt late =
    let s₁ : TimerRegs = record s { reads = s.reads + 1 } in
    let end_time = (clo s.reads + time_us) % 2 ^ 32 in
    let (n, s', e, few, w) = wait_until-Waited clo fuel end_time m s₁ lt late in
    (
      s',
      rw e refl,
      elim (Bool-cases (ltb (clo s.reads + time_us) (2 ^ 32))) [
        | inl fits ↦
            let below : clo s.reads + time_us < 2 ^ 32 = ltb→lt _ _ fits in
            let same : end_time ≡ clo s.reads + time_us = omega (arith, below) in
            inl (below, n, subst (λ t. Waited clo t n s₁ s') same w)
        | inr wraps ↦
            let above : 2 ^ 32 ≤ clo s.reads + time_us = ground (arith, wraps) in
            let none_before : n ≡ 0 = elim (Bool-cases (ltb 0 n)) [
              | inl e ↦
                  let e' : s.reads + 1 + 0 ≡ s.reads + 1 = omega arith in
                  absurd (omega (arith, w.before 0 (ltb→lt 0 n e), ap clo e', next, above, small))
              | inr e ↦ ground arith
            ] in
            inr (above, omega (arith, w.reads, none_before))
      ],
    )
