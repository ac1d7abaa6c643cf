-- ===== src/SystemTimer/Tests.antt =====
-- The system timer (src/peripherals/system_timer.c) with a counter that goes up by 10.
use pell_os.Base.{ℕ, ◌+◌, ◌*◌, ◌^◌, ◌<◌, ◌≤◌, ◌≡◌, ◌⊎◌, arith, some}
use pell_os.SystemTimer.{TimerRegs, wait_time}
use pell_os.SystemTimer.Wait.{Waited, wait_time-Waited}

abbrev clock : ℕ → ℕ
clock n = 1000 + 10 * n

abbrev timer : TimerRegs
timer = record { cs = 0; c1 = 0; reads = 0; tick_occured = 0 }

wait_time-Waited_example :
    (s' : TimerRegs) × (wait_time clock 9 35 timer ≡ some (35, s'))
    × (((1035 < 2 ^ 32) × (n : ℕ) × Waited clock 1035 n (record timer { reads = 1 }) s')
        ⊎ ((2 ^ 32 ≤ 1035) × (s'.reads ≡ 2)))
wait_time-Waited_example =
    wait_time-Waited clock 9 35 3 timer (omega arith) (omega arith) (omega arith) (omega arith)
      (omega arith)
