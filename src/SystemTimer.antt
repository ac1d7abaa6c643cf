-- ===== src/SystemTimer.antt =====
-- The system timer (src/peripherals/system_timer.c, include/peripherals/system_timer.h). `clo n` is what
-- the read number `n` of the counter's lower 32 bits gives.
pub mod Wait
mod Tests
use pell_os.Base.{
  ℕ, zero, suc, ◌+◌, ◌%◌, ◌^◌, Option, none, some, bit_and, bit_or, ◌==◌, ltb, if◌then◌else◌, ◌>>=◌,
}
use pell_os.Base.Bits.{shr}
use pell_os.Kernel.{Kernel}
use pell_os.Scheduler.{scheduler_tick}

abbrev pub tick_interval : ℕ
tick_interval = 200_000

-- The registers that are used, the number of reads of the counter, and `tick_occured`.
pub record TimerRegs : Type 0 where
  pub cs : ℕ
  pub c1 : ℕ
  pub reads : ℕ
  pub tick_occured : ℕ

module _ (clo : ℕ → ℕ) where
  abbrev pub get_timer_val : TimerRegs → ℕ × TimerRegs
  get_timer_val s = (clo s.reads, record s { reads = s.reads + 1 })

  -- `c1 = get_timer_val() + TICK_INTERVAL`
  unfoldable pub set_compare : TimerRegs → TimerRegs
  set_compare s =
      let (now, s') = get_timer_val s in record s' { c1 = (now + tick_interval) % 2 ^ 32 }

  abbrev pub system_timer_init : TimerRegs → TimerRegs
  system_timer_init s = set_compare s

  unfoldable pub handle_timer_c0_isr : (fuel : ℕ) → TimerRegs → Kernel → Option (TimerRegs × Kernel)
  unfolding set_compare scheduler_tick
  handle_timer_c0_isr fuel s k = do
    let s₁ = if s.tick_occured == 0 then record s { tick_occured = 1 } else s
    let s₂ = set_compare s₁
    let s₃ = record s₂ { cs = bit_or s₂.cs 2 }
    k' ← scheduler_tick fuel k
    some (s₃, k')

  -- The loop of `wait_time`, with fuel.
  unfoldable pub wait_until : (fuel end_time : ℕ) → TimerRegs → Option TimerRegs
  wait_until zero end_time s = none
  wait_until (suc fuel) end_time s =
      let (now, s') = get_timer_val s in
      let rest = wait_until fuel end_time s' in if ltb now end_time then rest else some s'

  unfoldable pub wait_time : (fuel time_us : ℕ) → TimerRegs → Option (ℕ × TimerRegs)
  unfolding wait_until
  wait_time fuel time_us s = do
    let (start_time, s₁) = get_timer_val s
    s₂ ← wait_until fuel ((start_time + time_us) % 2 ^ 32) s₁
    some (time_us, s₂)

abbrev pub poll_isr : (timer_id : ℕ) → TimerRegs → ℕ
poll_isr timer_id s = bit_and (shr s.cs timer_id) 1
