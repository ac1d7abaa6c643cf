-- ===== src/Fs/Fd/Destroy.antt =====
-- `destroy_fd_table` (src/fs/fd.c): the two blocks of the current task's table go back to the heap.
use pell_os.Base.{ℕ, ◌≡◌, refl}
use pell_os.KernelHeap.{KernelHeap, Call, returns, fault, out_of_fuel}
use pell_os.KernelHeap.Free.{kfree}

-- `bitmap` and `file` are the pointers of the table, 0 in a task that has none. They are kept.
unfoldable pub destroy_fd_table : (fuel bitmap file : ℕ) → KernelHeap → Call KernelHeap
unfolding kfree
destroy_fd_table fuel bitmap file h = elim (kfree fuel bitmap h) [
  | returns h' ↦ kfree fuel file h'
  | fault ↦ fault
  | out_of_fuel ↦ out_of_fuel
]

-- Without a table nothing is done.
pub destroy_fd_table-null : (fuel : ℕ) (h : KernelHeap) → destroy_fd_table fuel 0 0 h ≡ returns h
unfolding destroy_fd_table
destroy_fd_table-null fuel h = unfold kfree in refl
