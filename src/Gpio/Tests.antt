-- ===== src/Gpio/Tests.antt =====
-- Pins (include/peripherals/gpio.h).
use pell_os.Base.{inr, refl, arith}
use pell_os.Gpio.{Registers, gpio_gpfsel0_addr}
use pell_os.Gpio.Laws.{IsWritten, gpio_write_reg-field}

-- Every register reads as alternating digits.
abbrev some_registers : Registers
some_registers a = 0x5555_5555

-- Pin 14 gets function 4; pin 15 is in the same register.
gpio_write_reg-field_example : IsWritten gpio_gpfsel0_addr 14 4 15 1 3 some_registers
gpio_write_reg-field_example =
    gpio_write_reg-field gpio_gpfsel0_addr 14 4 3 15 1 some_registers (inr refl) (omega arith)
      (omega arith) (omega arith)
