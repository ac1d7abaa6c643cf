-- ===== src/Fs/Rdfs/Read.antt =====
-- What `rdfs_read_file` (src/fs/rdfs/rdfs.c) reads.
use pell_os.Base.{
  ℕ, zero, suc, ◌+◌, ◌-◌, ◌*◌, ◌%◌, ◌^◌, ◌<◌, ◌≤◌, ◌≡◌, ◌⊎◌, inl, inr, refl, ◌∙◌, sym, ap, arith,
  ◌==◌, Bool, true, false, ltb, if◌then◌else◌, Bool-cases,
}
use mathlib.Core.Path.{subst}
use pell_os.Fs.Fd.{File}
use pell_os.Base.Memory.{Memory, read_le}
use pell_os.Fs.Rdfs.{Partition, copy_bytes, memcpy, data_entry_size, data_location, read_file}

-- Two ranges of `n` addresses have none in common.
abbrev pub Disjoint : (n dest src : ℕ) → Type 0
Disjoint n dest src = (dest + n ≤ src) ⊎ (src + n ≤ dest)

abbrev pub Outside : (n dest a : ℕ) → Type 0
Outside n dest a = (a < dest) ⊎ (dest + n ≤ a)

copy_bytes-kept :
    (n dest src : ℕ) (mem : Memory) (a : ℕ) → Outside n dest a → copy_bytes n dest src mem a ≡ mem a
unfolding copy_bytes
copy_bytes-kept zero dest src mem a out = refl
copy_bytes-kept (suc n) dest src mem a out =
    copy_bytes-kept n (dest + 1) (src + 1) (λ b. if b == dest then mem src else mem b) a
      (elim out [ inl h ↦ inl (omega arith) | inr h ↦ inr (omega arith) ])
    ∙ ground (arith, out)

copy_bytes-copied :
    (n dest src : ℕ) (mem : Memory) (k : ℕ)
    → Disjoint n dest src
    → k < n
    → copy_bytes n dest src mem (dest + k) ≡ mem (src + k)
unfolding copy_bytes
copy_bytes-copied zero dest src mem k apart h = absurd (omega arith)
copy_bytes-copied (suc n) dest src mem zero apart h =
    copy_bytes-kept n (dest + 1) (src + 1) (λ b. if b == dest then mem src else mem b) (dest + 0)
      (inl (omega arith))
    ∙ ground arith
copy_bytes-copied (suc n) dest src mem (suc k) apart h =
    let mem' : Memory = λ b. if b == dest then mem src else mem b in
    let ih =
      copy_bytes-copied n (dest + 1) (src + 1) mem' k
        (elim apart [ inl h ↦ inl (omega arith) | inr h ↦ inr (omega arith) ]) (omega arith) in
    let same : dest + suc k ≡ dest + 1 + k = omega arith in
    let same' : src + suc k ≡ src + 1 + k = omega arith in
    rw (same, same') (ih ∙ ground (arith, apart))

pub read_le-bound : (mem : Memory) (a : ℕ) → ((a : ℕ) → mem a < 256) → read_le 8 mem a < 2 ^ 64
unfolding read_le
read_le-bound mem a bytes = omega (
  arith,
  bytes a,
  bytes (a + 1),
  bytes (a + 1 + 1),
  bytes (a + 1 + 1 + 1),
  bytes (a + 1 + 1 + 1 + 1),
  bytes (a + 1 + 1 + 1 + 1 + 1),
  bytes (a + 1 + 1 + 1 + 1 + 1 + 1),
  bytes (a + 1 + 1 + 1 + 1 + 1 + 1 + 1),
)

-- Where the file's bytes start: the partition's header and its file directory are before all of them.
abbrev pub file_start : Partition → Memory → ℕ → ℕ
file_start p mem id =
    (p.rdfs_start
      + read_le 8 mem (p.rdfs_start + 80)
      + read_le 8 mem (p.first_file + 96 * id + 80)
      + 96)
    % 2 ^ 64

-- `n` bytes of the file, from its position on, now stand at `buf`; the position is behind them, and
-- no other byte has changed.
pub record IsRead (p : Partition) (mem : Memory) (file : File) (buf n : ℕ) (file' : File)
    (mem' : Memory) : Type 0 where
  pub index : file'.index ≡ file.index + n
  pub file_id : file'.file_id ≡ file.file_id
  pub copied :
      (k : ℕ) → k < n → mem' (buf + k) ≡ mem (file_start p mem file.file_id + file.index + k)
  pub kept : (a : ℕ) → Outside n buf a → mem' a ≡ mem a

module _ (p : Partition) (mem : Memory) (file : File) (buf size : ℕ) where
  abbrev len : ℕ
  len = data_entry_size p mem file.file_id

  -- The number of bytes that are left, or `size` if that is less.
  abbrev pub count : ℕ
  count = if ltb (len - file.index) size then len - file.index else size

  read_file_lem :
      len < 2 ^ 64
      → file.index ≤ len
      → (rest : Bool) → (len - file.index == 0) ≡ rest
      → read_file p mem file buf size ≡ (
          if rest then (0, file, mem) else (
            count,
            record file { index = (file.index + count) % 2 ^ 64 },
            memcpy buf (data_location p mem file.file_id + file.index) count mem,
          ))
  unfolding read_file
  read_file_lem bound h rest e =
      let w : (len + 2 ^ 64 - file.index) % 2 ^ 64 ≡ len - file.index = omega arith in
      rw (w, e) refl

  abbrev Reads : ℕ × File × Memory → Type 0
  Reads r = (r.0 ≡ count) × IsRead p mem file buf r.0 r.1 r.2

  count_bounds :
      (len - file.index == 0) ≡ false → 0 < size → (0 < count) × (count ≤ len - file.index)
  count_bounds e pos = ground (arith, e)

  at_end : (len - file.index == 0) ≡ true → 0 < size → Reads (0, file, mem)
  at_end e pos = (
    ground (arith, e),
    record {
      index = omega arith;
      file_id = refl;
      copied = λ k h. absurd (omega arith);
      kept = λ a o. refl;
    },
  )

  memcpy_lem : (dest src n : ℕ) → 0 < n → memcpy dest src n mem ≡ copy_bytes n dest src mem
  unfolding memcpy
  memcpy_lem dest src n pos =
      let e : (n == 0) ≡ false = ground arith in
      ap (λ (b : Bool). copy_bytes (if b then 8 else n) dest src mem) e

  -- With the position inside the file or at its end, and a destination apart from the file's bytes:
  -- a read of at least one byte reads all bytes that are left or as many as were asked for,
  -- whichever is less, and at the end it reads nothing.
  pub read_file-IsRead :
      ((a : ℕ) → mem a < 256)
      → file.index ≤ len
      → 0 < size
      → Disjoint count buf (file_start p mem file.file_id + file.index)
      → let (n, file', mem') = read_file p mem file buf size in
        (n ≡ count) × IsRead p mem file buf n file' mem'
  read_file-IsRead bytes h pos apart =
      let lem = read_file_lem (read_le-bound mem (p.first_file + 96 * file.file_id + 88) bytes) h in
      let src = data_location p mem file.file_id + file.index in
      elim (Bool-cases (len - file.index == 0)) [
        | inl e ↦ subst Reads (sym (lem true e)) (at_end e pos)
        | inr e ↦
            let (low, high) = count_bounds e pos in
            subst Reads (sym (lem false e)) (
              refl,
              record {
                index =
                    omega (arith, read_le-bound mem (p.first_file + 96 * file.file_id + 88) bytes);
                file_id = refl;
                copied = λ k hk.
                    ap (λ (m : Memory). m (buf + k)) (memcpy_lem buf src count low)
                    ∙ copy_bytes-copied count buf src mem k apart hk;
                kept = λ a o.
                    ap (λ (m : Memory). m a) (memcpy_lem buf src count low)
                    ∙ copy_bytes-kept count buf src mem a o;
              },
            )
      ]
