-- ===== src/Uart/Tests.antt =====
-- The serial line (src/peripherals/uart.c) with a device that is ready at every third poll.
use pell_os.Base.{
  ℕ, zero, suc, ◌+◌, ◌%◌, ◌<◌, ◌≡◌, ◌≢◌, refl, sym, true, ◌*◌, ◌∙◌, arith, [], ◌∷◌, ◌==◌,
  if◌then◌else◌, bit_and, get_or,
}
use pell_os.Base.Memory.{Memory}
use pell_os.Uart.{Line, uart_transmit_str, uart_transmit}
use pell_os.Uart.Sent.{IsReady, Sends, uart_transmit_str-Sends}

abbrev slow : ℕ → ℕ
slow t = if t % 3 == 0 then 0x60 else 0x40

slow-IsReady : IsReady slow 3
slow-IsReady t =
    let d = 2 * t % 3 in
    let e : ((t + d) % 3 == 0) ≡ true = ground arith in
    let ready : bit_and (slow (t + d)) 0x20 ≡ 0x20 = rw e refl in
    (d, omega arith, λ z. omega (arith, sym ready ∙ z))

-- "Hi"
abbrev text : Memory
text a = get_or (72 ∷ 105 ∷ []) a 0

abbrev silent : Line
silent = record { polls = 1; sent = 33 ∷ [] }

text_inside : (k : ℕ) → k < 2 → text k ≢ 0
text_inside zero lt = omega arith
text_inside (suc zero) lt = omega arith
text_inside (suc (suc k)) lt = absurd (omega (arith, lt))

uart_transmit_str-Sends_example :
    Sends silent (72 ∷ 105 ∷ 10 ∷ 13 ∷ []) (uart_transmit_str slow 3 text 9 silent)
    × Sends silent (72 ∷ 105 ∷ 13 ∷ 10 ∷ []) (uart_transmit slow 3 text 2 silent)
uart_transmit_str-Sends_example =
    uart_transmit_str-Sends slow 3 text 9 2 silent slow-IsReady text_inside refl (omega arith)
