-- ===== src/Uart.antt =====
-- The serial line (src/peripherals/uart.c, include/peripherals/aux.h), for the mini UART that
-- include/config.h selects. `lsr t` is what the device's line status register holds at the poll number
-- `t`.
pub mod Sent
mod Tests
use pell_os.Base.{
  ℕ, zero, suc, ◌+◌, ◌-◌, ◌*◌, ◌/◌, Option, none, some, List, [], ◌∷◌, ◌++◌, bit_and, ◌==◌,
  if◌then◌else◌, ◌>>=◌,
}
use pell_os.Base.Memory.{Memory}
use pell_os.Gpio.{Registers, reg_write, gpio_use_alt, gpio_func_alt_5}

abbrev pub aux_mu_baud : ℕ → ℕ
aux_mu_baud baud = 500_000_000 / (baud * 8) - 1

abbrev pub aux_base_peripheral : ℕ
aux_base_peripheral = 0xFFFF_0000_3E00_0000 + 0x21_5000

abbrev pub aux_enables_addr : ℕ
aux_enables_addr = aux_base_peripheral + 0x04

abbrev pub aux_mu_ier_reg_addr : ℕ
aux_mu_ier_reg_addr = aux_base_peripheral + 0x44

abbrev pub aux_mu_lcr_reg_addr : ℕ
aux_mu_lcr_reg_addr = aux_base_peripheral + 0x4C

abbrev pub aux_mu_mcr_reg_addr : ℕ
aux_mu_mcr_reg_addr = aux_base_peripheral + 0x50

abbrev pub aux_mu_cntl_reg_addr : ℕ
aux_mu_cntl_reg_addr = aux_base_peripheral + 0x60

abbrev pub aux_mu_baud_reg_addr : ℕ
aux_mu_baud_reg_addr = aux_base_peripheral + 0x68

unfoldable pub uart_init : Registers → Registers
unfolding reg_write gpio_use_alt
uart_init regs =
    let regs₁ = reg_write aux_enables_addr 1 regs in
    let regs₂ = reg_write aux_mu_ier_reg_addr 0 regs₁ in
    let regs₃ = reg_write aux_mu_cntl_reg_addr 0 regs₂ in
    let regs₄ = reg_write aux_mu_lcr_reg_addr 3 regs₃ in
    let regs₅ = reg_write aux_mu_mcr_reg_addr 0 regs₄ in
    let regs₆ = reg_write aux_mu_baud_reg_addr (aux_mu_baud 115_200) regs₅ in
    let (_, regs₇) = gpio_use_alt 14 gpio_func_alt_5 regs₆ in
    let (_, regs₈) = gpio_use_alt 15 gpio_func_alt_5 regs₇ in reg_write aux_mu_cntl_reg_addr 3 regs₈

-- How often the status was polled, and the bytes that were written to the data register.
pub record Line : Type 0 where
  pub polls : ℕ
  pub sent : List ℕ

module _ (lsr : ℕ → ℕ) where
  -- `uart_txReady` at the next poll.
  abbrev pub uart_tx_ready : Line → ℕ
  uart_tx_ready s = bit_and (lsr s.polls) 0x20

  -- `uart_writeByteBlocks`; `none` is that the fuel ran out.
  unfoldable pub uart_write_byte_blocks : (fuel byte : ℕ) → Line → Option Line
  uart_write_byte_blocks zero byte s = none
  uart_write_byte_blocks (suc fuel) byte s =
      let s' = record s { polls = s.polls + 1 } in
      let rest = uart_write_byte_blocks fuel byte s' in
      if uart_tx_ready s == 0 then rest else some (record s' { sent = s'.sent ++ (byte ∷ []) })

  module _ (fuel : ℕ) (buff : Memory) where
    -- The loop of `uart_transmit`, with `left` bytes to go.
    unfoldable pub transmit_loop : (left i : ℕ) → Line → Option Line
    unfolding uart_write_byte_blocks
    transmit_loop zero i s = some s
    transmit_loop (suc left) i s = do
      s' ← uart_write_byte_blocks fuel (buff i) s
      transmit_loop left (i + 1) s'

    unfoldable pub uart_transmit : (size : ℕ) → Line → Option Line
    unfolding transmit_loop uart_write_byte_blocks
    uart_transmit size s = do
      s₁ ← transmit_loop size 0 s
      s₂ ← uart_write_byte_blocks fuel 13 s₁
      uart_write_byte_blocks fuel 10 s₂

    -- The loops of the other two, up to the byte `end`, and where they stop.
    unfoldable pub transmit_until : (end_byte rounds i : ℕ) → Line → Option (ℕ × Line)
    unfolding uart_write_byte_blocks
    transmit_until end_byte zero i s = none
    transmit_until end_byte (suc rounds) i s =
        let rest = (do
          s' ← uart_write_byte_blocks fuel (buff i) s
          transmit_until end_byte rounds (i + 1) s') in
        if buff i == end_byte then some (i, s) else rest

    unfoldable pub uart_transmit_to_end_line : (rounds : ℕ) → Line → Option Line
    unfolding transmit_until uart_write_byte_blocks
    uart_transmit_to_end_line rounds s = do
      (i, s₁) ← transmit_until 10 rounds 0 s
      s₂ ← uart_write_byte_blocks fuel (buff i) s₁
      uart_write_byte_blocks fuel 13 s₂

    unfoldable pub uart_transmit_str : (rounds : ℕ) → Line → Option Line
    unfolding transmit_until uart_write_byte_blocks
    uart_transmit_str rounds s = do
      (i, s₁) ← transmit_until 0 rounds 0 s
      s₂ ← uart_write_byte_blocks fuel 10 s₁
      uart_write_byte_blocks fuel 13 s₂
