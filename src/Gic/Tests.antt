-- ===== src/Gic/Tests.antt =====
-- The interrupt controller (src/irq.c).
use pell_os.Base.{◌≡◌, false, arith}
use pell_os.Gic.{Registers, enable_interrupt_controller}
use pell_os.Gic.Laws.{enabled, enable_interrupt_controller-enabled}

-- No interrupt is enabled.
abbrev clear_registers : Registers
clear_registers a = 0

enable_interrupt_controller-enabled_example :
    enabled 0x1E (enable_interrupt_controller false clear_registers) ≡ 1
enable_interrupt_controller-enabled_example =
    enable_interrupt_controller-enabled false 0x1E clear_registers (omega arith)
