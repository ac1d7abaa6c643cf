-- ===== src/Fs/Fd/Init.antt =====
-- `init_fd_table` (src/fs/fd.c): how much of the file array it clears.
use pell_os.Base.{
  ℕ, zero, suc, ◌+◌, ◌≤◌, ◌<◌, ◌≡◌, refl, ap, ◌∙◌, none, some, List, [], ◌∷◌, arith, ltb, get_or,
  get_elem?-eq-get_or, length,
}
use pell_os.Base.Int.{pos}
use pell_os.Fs.Fd.{File, no_file, clear_file, clear_files, init_fd_table, is_valid_fd}

length-clear_files : (i : ℕ) (fs : List File) → length (clear_files i fs) ≡ length fs
unfolding clear_files
length-clear_files i [] = refl
length-clear_files i (f ∷ fs) = ap suc (length-clear_files (i + 1) fs)

get_or-clear_files :
    (i : ℕ) (fs : List File) (k : ℕ)
    → k < length fs
    → get_or (clear_files i fs) k no_file ≡ clear_file (i + k) (get_or fs k no_file)
unfolding clear_files
get_or-clear_files i [] k h = absurd (omega arith)
get_or-clear_files i (f ∷ fs) zero h = ap (λ n. clear_file n f) (omega arith)
get_or-clear_files i (f ∷ fs) (suc k) h =
    get_or-clear_files (i + 1) fs k (omega arith)
    ∙ ap (λ n. clear_file n (get_or fs k no_file)) (omega arith)

-- Whatever the block that `kmalloc` returned holds, those of the new table's first 42 entries that
-- lie in the block are empty.
pub init_fd_table-clears :
    (block : List File) (k : ℕ)
    → k < 42
    → k < length block
    → get_or (init_fd_table block none).file k no_file ≡ no_file
unfolding init_fd_table
init_fd_table-clears block k h h' = ground (arith, get_or-clear_files 0 block k h')

-- The clearing does not reach the entries from 43 on: a descriptor that was never opened is valid
-- if the flags that the block happens to hold there are not 0.
pub init_fd_table-keeps :
    (block : List File) (k : ℕ)
    → 43 ≤ k
    → k < length block
    → is_valid_fd (pos k) (init_fd_table block none) ≡ some (ltb 0 (get_or block k no_file).flags)
unfolding init_fd_table is_valid_fd
init_fd_table-keeps block k h h' =
    rw
      (get_elem?-eq-get_or (clear_files 0 block) k no_file
        (omega (arith, length-clear_files 0 block)))
      (ground (arith, get_or-clear_files 0 block k h'))
