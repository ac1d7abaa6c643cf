-- ===== src/Fs/Fd/Delete.antt =====
-- `delete_fd`, `is_valid_fd` and `get_file_from_fd` (src/fs/fd.c), alone and after `create_fd`.
use pell_os.Base.{
  ℕ, ◌/◌, ◌%◌, ◌≤◌, ◌<◌, ◌≡◌, ◌≢◌, inl, inr, false, none, some, List, arith, ltb, ◌==◌, ==_iff,
  if◌then◌else◌, Bool-cases, bit_and, get_or, set, length, length-set, get_or-set_self,
  get_or-set_ne, get_or-set, get_elem?-eq-get_or, get_elem?-ge, All, All-get_or, All-set,
}
use pell_os.Base.Bits.{shl, not32, bit-bit_and, byte_bounds}
use pell_os.Base.Int.{pos, negsuc}
use pell_os.Fs.Fd.{File, FdTable, no_file, is_valid_fd, get_file_from_fd, create_fd, delete_fd}
use pell_os.Fs.Fd.Search.{IsByte, in_use}
use pell_os.Fs.Fd.Create.{IsTable, fd_count, flags_of, create_fd-Outcome}

-- What the two readers return on a table in order.
pub is_valid_fd_lem :
    (t : FdTable) (n : ℕ)
    → IsTable t
    → n < fd_count
    → is_valid_fd (pos n) t ≡ some (ltb 0 (flags_of t n))
unfolding is_valid_fd
is_valid_fd_lem t n v h = rw (get_elem?-eq-get_or t.file n no_file (omega (arith, v.file_size)))

pub get_file_from_fd_lem :
    (t : FdTable) (n : ℕ)
    → IsTable t
    → n < fd_count
    → get_file_from_fd (pos n) t
      ≡ some (if ltb 0 (flags_of t n) then some (get_or t.file n no_file) else none)
unfolding get_file_from_fd
get_file_from_fd_lem t n v h = ground (
  arith,
  is_valid_fd_lem t n v h,
  get_elem?-eq-get_or t.file n no_file (omega (arith, v.file_size)),
)

in_use-clear :
    (bytes : List ℕ) (n m : ℕ)
    → All IsByte bytes
    → n / 8 < length bytes
    → in_use (set bytes (n / 8) (bit_and (get_or bytes (n / 8) 0) (not32 (shl 1 (n % 8))))) m
      ≡ (if n == m then 0 else in_use bytes m)
in_use-clear bytes n m hb hi =
    let new = bit_and (get_or bytes (n / 8) 0) (not32 (shl 1 (n % 8))) in
    elim (Bool-cases (n / 8 == m / 8)) [
      | inl e ↦
          let e' : n / 8 ≡ m / 8 = (==_iff (n / 8) (m / 8)).0 e in
          rw (← e', get_or-set_self bytes (n / 8) new 0 hi)
            (ground (
              arith,
              e',
              bit-bit_and (get_or bytes (n / 8) 0) (n % 8) (m % 8)
                  (All-get_or IsByte bytes (n / 8) 0 hb (omega arith)) (omega arith) (omega arith),
            ))
      | inr e ↦
          rw
            (get_or-set_ne bytes (n / 8) (m / 8) new 0
              (λ q. ground (arith, (==_iff (n / 8) (m / 8)).1 q)))
            (ground arith)
    ]

-- Descriptor `n` is unused and its entry is empty; the others are kept.
pub record Deleted (t : FdTable) (n : ℕ) (t' : FdTable) : Type 0 where
  pub marked : (m : ℕ) → in_use t'.bitmap m ≡ (if n == m then 0 else in_use t.bitmap m)
  pub entries :
      (m : ℕ) → get_or t'.file m no_file ≡ (if n == m then no_file else get_or t.file m no_file)

module _ (t : FdTable) (n : ℕ) (v : IsTable t) (h : n < fd_count) where
  abbrev cleared : FdTable
  cleared = record {
    bitmap = set t.bitmap (n / 8) (bit_and (get_or t.bitmap (n / 8) 0) (not32 (shl 1 (n % 8))));
    file = set t.file n no_file;
  }

  delete_fd-cleared : delete_fd (pos n) t ≡ some cleared
  unfolding delete_fd
  delete_fd-cleared = ground (
    arith,
    get_elem?-eq-get_or t.bitmap (n / 8) 0 (omega (arith, v.bitmap_size)),
    get_elem?-eq-get_or t.file n no_file (omega (arith, v.file_size)),
  )

  cleared-Deleted : Deleted t n cleared
  cleared-Deleted = record {
    marked = λ m. in_use-clear t.bitmap n m v.bytes (omega (arith, v.bitmap_size));
    entries = λ m. get_or-set t.file n m no_file no_file (omega (arith, v.file_size));
  }

  cleared-IsTable : IsTable cleared
  cleared-IsTable =
      let d = cleared-Deleted in
      record {
        bytes =
            All-set IsByte t.bitmap (n / 8) _ v.bytes
              (byte_bounds _ (n % 8) (All-get_or IsByte t.bitmap (n / 8) 0 v.bytes (omega arith))
                (omega arith)).1;
        bitmap_size = omega (arith, length-set t.bitmap (n / 8), v.bitmap_size);
        file_size = omega (arith, length-set t.file n, v.file_size);
        unused = λ m hm free. ground (arith, d.marked m, d.entries m, v.unused m hm);
        open_file = λ m hm free. ground (arith, d.marked m, d.entries m, v.open_file m hm);
      }

-- Deleting a descriptor of a table in order clears its mark and its entry, keeps all others, and leaves a
-- table in order, in which the descriptor is not valid.
pub delete_fd-Deleted :
    (t : FdTable) (n : ℕ)
    → IsTable t
    → n < fd_count
    → (t' : FdTable) × (delete_fd (pos n) t ≡ some t')
      × Deleted t n t'
      × IsTable t'
      × (is_valid_fd (pos n) t' ≡ some false)
delete_fd-Deleted t n v h =
    let d = cleared-Deleted t n v h in
    let v' = cleared-IsTable t n v h in
    (
      cleared t n v h,
      delete_fd-cleared t n v h,
      d,
      v',
      ground (arith, is_valid_fd_lem (cleared t n v h) n v' h, d.entries n),
    )

-- For a table in order, a descriptor past the bitmap makes `delete_fd` write outside the memory of the table.
pub delete_fd-fault : (t : FdTable) (n : ℕ) → IsTable t → fd_count ≤ n → delete_fd (pos n) t ≡ none
unfolding delete_fd
delete_fd-fault t n v h =
    ground (arith, get_elem?-ge t.bitmap (n / 8) (omega (arith, v.bitmap_size)))

-- For a table in order in which `create_fd` finds a descriptor: what it stored is what
-- `get_file_from_fd` returns for that descriptor, with the flags
-- set to 1; deleting the descriptor then gives back the marks that the table had, and the entries
-- of all other descriptors.
pub delete_fd-create_fd :
    (f : File) (t : FdTable)
    → IsTable t
    → (create_fd f t).0 ≢ negsuc 0
    → let (fd, t₁) = create_fd f t in
      (get_file_from_fd fd t₁ ≡ some (some (record f { flags = 1 })))
      × ((t₂ : FdTable) × (delete_fd fd t₁ ≡ some t₂)
          × ((m : ℕ) → in_use t₂.bitmap m ≡ in_use t.bitmap m)
          × ((m : ℕ) → pos m ≢ fd → get_or t₂.file m no_file ≡ get_or t.file m no_file))
delete_fd-create_fd f t v ok = elim (create_fd-Outcome f t v) [
  | inl (_, e, _) ↦ absurd (ok e)
  | inr (n, c, v₁) ↦
      let t₁ = (create_fd f t).1 in
      let d = cleared-Deleted t₁ n v₁ c.in_range in
      rw c.descriptor (
        ground (arith, get_file_from_fd_lem t₁ n v₁ c.in_range, c.entries n),
        (
          cleared t₁ n v₁ c.in_range,
          delete_fd-cleared t₁ n v₁ c.in_range,
          λ m. ground (arith, d.marked m, c.marked m, c.unused_before),
          λ m ne. ground (arith, d.entries m, c.entries m, ne),
        ),
      )
]
