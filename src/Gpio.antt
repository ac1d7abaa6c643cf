-- ===== src/Gpio.antt =====
-- The general purpose pins (include/peripherals/gpio.h). The registers are the 32-bit words that are
-- read at their addresses.
pub mod Laws
mod Tests
use pell_os.Base.{ℕ, ◌+◌, ◌-◌, ◌*◌, ◌/◌, ◌%◌, ◌^◌, bit_and, bit_or, ◌==◌, ltb, if◌then◌else◌}
use pell_os.Base.Bits.{shl, not32}

abbrev pub gpio_max_pin : ℕ
gpio_max_pin = 53

abbrev pub gpio_base_peripheral : ℕ
gpio_base_peripheral = 0xFFFF_0000_3E00_0000 + 0x20_0000

abbrev pub gpio_gpfsel0_addr : ℕ
gpio_gpfsel0_addr = gpio_base_peripheral

abbrev pub gpio_gpset0_addr : ℕ
gpio_gpset0_addr = gpio_base_peripheral + 0x1C

abbrev pub gpio_gpclr0_addr : ℕ
gpio_gpclr0_addr = gpio_base_peripheral + 0x28

abbrev pub gpio_pup_pdn_cntrl_reg0_addr : ℕ
gpio_pup_pdn_cntrl_reg0_addr = gpio_base_peripheral + 0xE4

abbrev pub gpio_pup_pdn_pull_none : ℕ
gpio_pup_pdn_pull_none = 0

abbrev pub gpio_func_alt_5 : ℕ
gpio_func_alt_5 = 2

abbrev pub Registers : Type 0
Registers = ℕ → ℕ

unfoldable pub reg_write : (reg_addr val : ℕ) → Registers → Registers
reg_write reg_addr val regs a = if a == reg_addr then val else regs a

-- The result is 0 for a pin or a value out of range.
unfoldable pub gpio_write_reg : (base pin value field_size : ℕ) → Registers → ℕ × Registers
unfolding reg_write
gpio_write_reg base pin value field_size regs =
    let field_max = shl 1 field_size - 1 in
    let num_fields = 32 / field_size in
    let shift = pin % num_fields * field_size in
    let reg_addr = base + pin / num_fields * 4 in
    let curr_val = bit_and (regs reg_addr) (not32 (shl field_max shift)) in
    if ltb gpio_max_pin pin
    then (0, regs)
    else if ltb field_max value
    then (0, regs)
    else (1, reg_write reg_addr (bit_or curr_val (shl value shift)) regs)

unfoldable gpio_set : (pin : ℕ) → Registers → ℕ × Registers
gpio_set pin = gpio_write_reg gpio_gpset0_addr pin 1 1

unfoldable gpio_clear : (pin : ℕ) → Registers → ℕ × Registers
gpio_clear pin = gpio_write_reg gpio_gpclr0_addr pin 0 1

unfoldable gpio_function : (pin func : ℕ) → Registers → ℕ × Registers
gpio_function pin func = gpio_write_reg gpio_gpfsel0_addr pin func 3

unfoldable gpio_pull_up_down : (pin val : ℕ) → Registers → ℕ × Registers
gpio_pull_up_down pin val = gpio_write_reg gpio_pup_pdn_cntrl_reg0_addr pin val 1

unfoldable pub gpio_use_alt : (pin alt : ℕ) → Registers → ℕ × Registers
unfolding gpio_pull_up_down gpio_function
gpio_use_alt pin alt regs =
    let (done, regs') = gpio_pull_up_down pin gpio_pup_pdn_pull_none regs in
    if done == 0 then (0, regs') else gpio_function pin alt regs'

unfoldable gpio_write_pin : (pin value : ℕ) → Registers → ℕ × Registers
unfolding gpio_set gpio_clear
gpio_write_pin pin value regs = if ltb 0 value then gpio_set pin regs else gpio_clear pin regs
