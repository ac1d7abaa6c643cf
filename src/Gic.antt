-- ===== src/Gic.antt =====
-- The interrupt controller (src/irq.c, include/peripherals/irq_gic.h). The registers are the 32-bit
-- words that are read at their addresses.
pub mod Laws
mod Tests
use pell_os.Base.{
  ℕ, ◌+◌, ◌*◌, ◌/◌, ◌%◌, ◌^◌, Bool, true, false, bit_and, bit_or, ◌==◌, if◌then◌else◌,
}
use pell_os.Base.Bits.{shl}

abbrev pub irq_gic_base_peripheral : ℕ
irq_gic_base_peripheral = 0xFFFF_0000_3F84_0000

abbrev pub irq_gicd_base : ℕ
irq_gicd_base = irq_gic_base_peripheral + 0x1000

abbrev pub irq_gicd_isr_enable : ℕ
irq_gicd_isr_enable = irq_gicd_base + 0x100

abbrev pub irq_gicd_irq_target : ℕ
irq_gicd_irq_target = irq_gicd_base + 0x800

abbrev pub irq_gicc_base : ℕ
irq_gicc_base = irq_gic_base_peripheral + 0x2000

abbrev pub irq_gicc_pmr : ℕ
irq_gicc_pmr = irq_gicc_base + 0x04

abbrev pub irq_gicc_iar : ℕ
irq_gicc_iar = irq_gicc_base + 0x0C

abbrev pub irq_gicc_eoir : ℕ
irq_gicc_eoir = irq_gicc_base + 0x10

abbrev pub system_timer_irq_1 : ℕ
system_timer_irq_1 = 0x61

abbrev pub arm_generic_timer : ℕ
arm_generic_timer = 0x1E

abbrev pub Registers : Type 0
Registers = ℕ → ℕ

unfoldable pub reg_store : (reg value : ℕ) → Registers → Registers
reg_store reg value regs a = if a == reg then value else regs a

-- `*reg |= bits`
unfoldable pub set_bits : (reg bits : ℕ) → Registers → Registers
unfolding reg_store
set_bits reg bits regs = reg_store reg (bit_or (regs reg) bits) regs

unfoldable pub assign_targets : (isr_id target_id : ℕ) → Registers → Registers
unfolding set_bits
assign_targets isr_id target_id regs =
    let isr_block = isr_id / 4 in
    let target_offset = isr_id % 4 * 8 + target_id in
    set_bits (irq_gicd_irq_target + isr_block * 4) (shl 1 target_offset) regs

unfoldable pub enable_isr : (isr_id : ℕ) → Registers → Registers
unfolding set_bits
enable_isr isr_id regs =
    let isr_block = isr_id / 32 in
    let isr_offset = isr_id % 32 in
    set_bits (irq_gicd_isr_enable + isr_block * 4) (shl 1 isr_offset) regs

-- `tick_occured` is the flag's value after the wait for two ticks.
unfoldable pub enable_interrupt_controller : (tick_occured : Bool) → Registers → Registers
unfolding assign_targets enable_isr
enable_interrupt_controller tick_occured regs =
    let regs₁ = enable_isr system_timer_irq_1 (assign_targets system_timer_irq_1 0 regs) in
    let regs₂ =
      set_bits irq_gicc_pmr 0xFF (set_bits irq_gicc_base 3 (set_bits irq_gicd_base 3 regs₁)) in
    if tick_occured
    then regs₁
    else enable_isr arm_generic_timer (assign_targets arm_generic_timer 0 regs₂)

-- The handler that an interrupt is given to.
pub data Handler : Type 0 where
  handle_timer_c0_isr handle_generic_timer_irq : Handler
  unknown_irq : ℕ → Handler

unfoldable handle_irq : Registers → Handler × Registers
unfolding reg_store
handle_irq regs =
    let irq_ack = regs irq_gicc_iar in
    let irq = bit_and irq_ack 0x2FF in
    if irq == system_timer_irq_1
    then (handle_timer_c0_isr, reg_store irq_gicc_eoir irq_ack regs)
    else if irq == arm_generic_timer
    then (handle_generic_timer_irq, reg_store irq_gicc_eoir irq_ack regs)
    else (unknown_irq irq, regs)
