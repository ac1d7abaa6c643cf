-- ===== src/Syscalls.antt =====
-- The system calls that change tasks (src/syscalls.c); those on files are in Fs/Vfs. `translate` is
-- the processor's address translation, and `ret_from_fork` the address of that entry point.
use pell_os.Base.{ℕ, Option}
use pell_os.KernelHeap.{KernelHeap}
use pell_os.Kernel.{Kernel}
use pell_os.Scheduler.Fork.{kernel_fork, exit_task}
use pell_os.SoftwareTimer.Register.{register_one_hit}

unfoldable syscall_fork :
    (translate : (ℕ → ℕ) → ℕ → ℕ → ℕ) (ret_from_fork : ℕ) → Kernel → Option (ℕ × Kernel)
unfolding kernel_fork
syscall_fork translate ret_from_fork k = kernel_fork translate ret_from_fork 0 0 0 k

-- What it prints is left out.
unfoldable syscall_exit :
    (heap_fuel fuel bitmap file ret : ℕ) → KernelHeap → Kernel → Option (KernelHeap × Kernel)
unfolding exit_task
syscall_exit heap_fuel fuel bitmap file ret h k = exit_task heap_fuel fuel bitmap file h k

unfoldable syscall_wait : (fuel delay_ms : ℕ) → Kernel → Option Kernel
unfolding register_one_hit
syscall_wait fuel delay_ms k = register_one_hit fuel delay_ms k
