-- ===== src/SoftwareTimer/Sleep.antt =====
-- From `register_one_hit` to `check_timers` (src/lib/software_timer.c): how long a task sleeps.
use pell_os.Base.{
  ℕ, ◌+◌, ◌/◌, ◌%◌, ◌^◌, ◌⊎◌, ◌<◌, ◌≤◌, ◌≡◌, ◌≢◌, inl, inr, refl, sym, ap, ◌∙◌, arith, some, List,
  [], ◌∷◌, Bool-cases, true, false, ◌==◌, ==_iff, leb, if◌then◌else◌, get_or, set, length,
  length-set, get_or-set_self, get_or-set_ne,
}
use mathlib.Core.Path.{subst}
use pell_os.Kernel.{Kernel, Timer, running, blocked, write_task}
use pell_os.SoftwareTimer.{no_timer, is_expired, check_timers}
use pell_os.SoftwareTimer.Wake.{WokenBy, check_timers-Woken}
use pell_os.SoftwareTimer.Register.{find_timer, timer_for, start_timer}

find_timer_bound :
    (ts : List Timer) (b i : ℕ) → find_timer ts b ≡ some i → (b ≤ i) × (i < b + length ts)
unfolding find_timer
find_timer_bound [] b i e = absurd (cc e)
find_timer_bound (t ∷ ts) b i e = ground (arith, e, find_timer_bound ts (b + 1) i)

-- The kernel's state at tick `now`, with nothing but the tick changed since timer `i` was started.
abbrev pub asleep : (now delay_in_ms i : ℕ) → Kernel → Kernel
asleep now delay_in_ms i k = record (start_timer delay_in_ms i k) { current_tick = now }

module _ (now delay_in_ms i : ℕ) (k : Kernel) (free : find_timer k.timer_arr 0 ≡ some i)
    (there : k.current ≢ 0)
    (alone : (j : ℕ) → j ≢ i → (get_or k.timer_arr j no_timer).task_ptr ≢ k.current) where
  abbrev k' : Kernel
  k' = asleep now delay_in_ms i k

  abbrev finish : ℕ
  finish = (timer_for delay_in_ms k).finish_time

  timers_lem : k'.timer_arr ≡ set k.timer_arr i (timer_for delay_in_ms k)
  unfolding start_timer
  timers_lem = refl

  own_timer : get_or k'.timer_arr i no_timer ≡ timer_for delay_in_ms k
  own_timer =
      ap (λ ts. get_or ts i no_timer) timers_lem
      ∙ get_or-set_self k.timer_arr i (timer_for delay_in_ms k) no_timer
          (omega (arith, (find_timer_bound k.timer_arr 0 i free).1))

  -- Only this timer can wake the task.
  only_own : (j : ℕ) → (get_or k'.timer_arr j no_timer).task_ptr ≡ k.current → j ≡ i
  only_own j e = elim (Bool-cases (j == i)) [
    | inl same ↦ (==_iff j i).0 same
    | inr other ↦
        let ne : j ≢ i = λ q. ground (arith, other, q) in
        let kept =
          ap (λ ts. get_or ts j no_timer) timers_lem
          ∙ get_or-set_ne k.timer_arr i j (timer_for delay_in_ms k) no_timer (λ q. ne (sym q)) in
        absurd (alone j ne (ap (λ t. t.task_ptr) (sym kept) ∙ e))
  ]

  expired_lem : is_expired now (get_or k'.timer_arr i no_timer) ≡ leb finish now
  expired_lem =
      let some_task : (k.current == 0) ≡ false = ground (arith, there, ==_iff k.current 0) in
      ap (is_expired now) own_timer ∙ rw some_task refl

  blocked_lem : (k'.tasks k.current).state ≡ blocked
  unfolding start_timer write_task
  blocked_lem = let e = (==_iff k.current k.current).1 refl in rw e refl

  woken_if : WokenBy now k'.timer_arr k.current → leb finish now ≡ true
  woken_if (j, lt, e, q) =
      sym expired_lem
      ∙ subst (λ j. is_expired now (get_or k'.timer_arr j no_timer) ≡ true) (only_own j q) e

  woken_when : leb finish now ≡ true → WokenBy now k'.timer_arr k.current
  woken_when e = (
    i,
    subst (λ ts. i < length ts) (sym timers_lem)
        (omega (
          arith,
          length-set k.timer_arr i (timer_for delay_in_ms k),
          (find_timer_bound k.timer_arr 0 i free).1,
        )),
    expired_lem ∙ e,
    ap (λ t. t.task_ptr) own_timer,
  )

-- A task that starts the free timer `i`, while no other timer is its own, and the timers checked at
-- tick `now` with nothing but the tick changed. If the tick of the call plus a hundredth of the delay,
-- modulo 2 ^ 32, has come, the task is running again and the timer is free; else the task is still
-- blocked, and the timer holds that finish time and the task.
pub check_timers-start_timer :
    (now delay_in_ms i : ℕ) (k : Kernel)
    → find_timer k.timer_arr 0 ≡ some i
    → k.current ≢ 0
    → ((j : ℕ) → j ≢ i → (get_or k.timer_arr j no_timer).task_ptr ≢ k.current)
    → let k' = check_timers (asleep now delay_in_ms i k) in
      let finish = (k.current_tick + delay_in_ms / 100) % 2 ^ 32 in
      ((finish ≤ now)
        × ((k'.tasks k.current).state ≡ running)
        × (get_or k'.timer_arr i no_timer ≡ no_timer))
      ⊎ ((now < finish)
          × ((k'.tasks k.current).state ≡ blocked)
          × (get_or k'.timer_arr i no_timer
              ≡ record { finish_time = finish; task_ptr = k.current }))
check_timers-start_timer now delay i k free there alone =
    let (woken, timers) = check_timers-Woken (asleep now delay i k) k.current in
    let finish = (k.current_tick + delay / 100) % 2 ^ 32 in
    let expired = expired_lem now delay i k free there alone in
    let own = get_or (asleep now delay i k).timer_arr i no_timer in
    elim (Bool-cases (leb finish now)) [
      | inl come ↦ inl (
        ground arith,
        elim woken [
          | inl (by, e) ↦ ap (λ t. t.state) e
          | inr (never, e) ↦ absurd (never (woken_when now delay i k free there alone come))
        ],
        timers i ∙ ap (λ b. if b then no_timer else own) (expired ∙ come),
      )
      | inr early ↦ inr (
        ground arith,
        elim woken [
          | inl (by, e) ↦ absurd (cc (sym early ∙ woken_if now delay i k free there alone by))
          | inr (never, e) ↦ ap (λ t. t.state) e ∙ blocked_lem now delay i k free there alone
        ],
        timers i
            ∙ ap (λ b. if b then no_timer else own) (expired ∙ early)
            ∙ own_timer now delay i k free there alone,
      )
    ]
