-- ===== src/Fs/Fd/Create.antt =====
-- `create_fd` (src/fs/fd.c) on a table whose bitmap and entries agree.
use pell_os.Base.{
  ℕ, ◌+◌, ◌*◌, ◌/◌, ◌%◌, ◌<◌, ◌≡◌, ◌⊎◌, inl, inr, refl, Option, none, some, List, arith, ◌==◌,
  ==_iff, if◌then◌else◌, Bool-cases, bit_or, get_or, set, length, length-set, get_or-set_self,
  get_or-set_ne, get_or-set, All, All-get_or, All-set,
}
use pell_os.Base.Bits.{shl, bit-bit_or, byte_bounds}
use pell_os.Base.Int.{ℤ, pos, negsuc}
use pell_os.Fs.Fd.{File, FdTable, no_file, file_desc_table_init_size, find_fd, take_fd, create_fd}
use pell_os.Fs.Fd.Search.{IsByte, in_use, Scanned, find_fd-Scanned}

-- The descriptors that the bitmap has a bit for.
abbrev pub fd_count : ℕ
fd_count = file_desc_table_init_size / 8 * 8

abbrev pub flags_of : FdTable → ℕ → ℕ
flags_of t n = (get_or t.file n no_file).flags

pub record IsTable (t : FdTable) : Type 0 where
  pub bytes : All IsByte t.bitmap
  pub bitmap_size : length t.bitmap ≡ file_desc_table_init_size / 8
  pub file_size : length t.file ≡ file_desc_table_init_size
  pub unused : (n : ℕ) → n < fd_count → in_use t.bitmap n ≡ 0 → flags_of t n ≡ 0
  pub open_file : (n : ℕ) → n < fd_count → in_use t.bitmap n ≡ 1 → flags_of t n ≡ 1

-- Descriptor `n` is the lowest unused one; it is marked and gets the file, with its flags set to 1.
pub record Created (f : File) (t : FdTable) (fd : ℤ) (t' : FdTable) (n : ℕ) : Type 0 where
  pub descriptor : fd ≡ pos n
  pub in_range : n < fd_count
  pub unused_before : in_use t.bitmap n ≡ 0
  pub lowest : (m : ℕ) → m < n → in_use t.bitmap m ≡ 1
  pub marked : (m : ℕ) → in_use t'.bitmap m ≡ (if n == m then 1 else in_use t.bitmap m)
  pub entries :
      (m : ℕ)
      → get_or t'.file m no_file
        ≡ (if n == m then record f { flags = 1 } else get_or t.file m no_file)

pub in_use-mark :
    (bytes : List ℕ) (i j m : ℕ)
    → All IsByte bytes
    → i < length bytes
    → j < 8
    → in_use (set bytes i (bit_or (get_or bytes i 0) (shl 1 j))) m
      ≡ (if j + i * 8 == m then 1 else in_use bytes m)
in_use-mark bytes i j m hb hi hj = elim (Bool-cases (i == m / 8)) [
  | inl e ↦
      let e' : i ≡ m / 8 = (==_iff i (m / 8)).0 e in
      rw (← e', get_or-set_self bytes i (bit_or (get_or bytes i 0) (shl 1 j)) 0 hi)
        (ground (
          arith,
          e',
          bit-bit_or (get_or bytes i 0) j (m % 8) (All-get_or IsByte bytes i 0 hb (omega arith)) hj
              (omega arith),
        ))
  | inr e ↦
      rw
        (get_or-set_ne bytes i (m / 8) (bit_or (get_or bytes i 0) (shl 1 j)) 0
          (λ q. ground (arith, (==_iff i (m / 8)).1 q)))
        (ground arith)
]

module _ (f : File) (t : FdTable) (v : IsTable t) (i j : ℕ) (hi : i < 15) (hj : j < 8) where
  marks :
      (m : ℕ)
      → in_use (take_fd f t (some (i, j))).1.bitmap m
        ≡ (if j + i * 8 == m then 1 else in_use t.bitmap m)
  unfolding take_fd
  marks m = in_use-mark t.bitmap i j m v.bytes (omega (arith, v.bitmap_size)) hj

  entries :
      (m : ℕ)
      → get_or (take_fd f t (some (i, j))).1.file m no_file
        ≡ (if j + i * 8 == m then record f { flags = 1 } else get_or t.file m no_file)
  unfolding take_fd
  entries m =
      get_or-set t.file (j + i * 8) m (record f { flags = 1 }) no_file (omega (arith, v.file_size))

  take_fd-IsTable : IsTable (take_fd f t (some (i, j))).1
  take_fd-IsTable = record {
    bytes =
        unfold take_fd in
        All-set IsByte t.bitmap i _ v.bytes
          (byte_bounds _ j (All-get_or IsByte t.bitmap i 0 v.bytes (omega arith)) hj).0;
    bitmap_size = unfold take_fd in omega (arith, length-set t.bitmap i, v.bitmap_size);
    file_size = unfold take_fd in omega (arith, length-set t.file (j + i * 8), v.file_size);
    unused = λ n hn free. ground (arith, marks n, entries n, v.unused n hn);
    open_file = λ n hn free. ground (arith, marks n, entries n, v.open_file n hn);
  }

abbrev pub Outcome : File → FdTable → ℤ × FdTable → Type 0
Outcome f t (fd, t') =
    (((n : ℕ) → n < fd_count → in_use t.bitmap n ≡ 1) × (fd ≡ negsuc 0) × (t' ≡ t))
    ⊎ ((n : ℕ) × Created f t fd t' n × IsTable t')

Outcome-take_fd :
    (f : File) (t : FdTable) (r : Option (ℕ × ℕ))
    → IsTable t
    → Scanned t.bitmap 0 r
    → Outcome f t (take_fd f t r)
Outcome-take_fd f t none v s =
    unfold take_fd in
    inl (λ n hn. s (n / 8) (n % 8) (omega (arith, v.bitmap_size)) (omega arith), refl, refl)
Outcome-take_fd f t (some (b, j)) v (i, eb, hi, hj, clear, low, before) =
    let e : b ≡ i = omega arith in
    let hi' : i < 15 = omega (arith, v.bitmap_size) in
    rw e (
      inr (
        j + i * 8,
        record {
          descriptor = unfold take_fd in refl;
          in_range = omega arith;
          unused_before =
              let eq : (j + i * 8) / 8 ≡ i = omega arith in
              let er : (j + i * 8) % 8 ≡ j = omega arith in rw (eq, er) clear;
          lowest = λ m hm. lowest m hm;
          marked = marks f t v i j hi' hj;
          entries = entries f t v i j hi' hj;
        },
        take_fd-IsTable f t v i j hi' hj,
      ))
  where
    lowest : (m : ℕ) → m < j + i * 8 → in_use t.bitmap m ≡ 1
    lowest m hm = elim (Bool-cases (m / 8 == i)) [
      | inl q ↦
          let q' : m / 8 ≡ i = (==_iff (m / 8) i).0 q in
          rw q' (low (m % 8) (omega arith) (omega arith))
      | inr q ↦ before (m / 8) (m % 8) (ground (arith, (==_iff (m / 8) i).1)) (omega arith)
    ]

-- For a table in order: either all descriptors are in use, and the result is -1 with nothing changed; or the lowest
-- unused descriptor is returned, marked and given the file, every other mark and entry is kept, and
-- the bitmap and the entries of the new table agree again.
pub create_fd-Outcome : (f : File) (t : FdTable) → IsTable t → Outcome f t (create_fd f t)
unfolding create_fd
create_fd-Outcome f t v =
    Outcome-take_fd f t (find_fd t.bitmap 0) v (find_fd-Scanned t.bitmap 0 v.bytes)
