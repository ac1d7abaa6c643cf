-- ===== src/Fs/Vfs/Calls.antt =====
-- What opening and reading a file of the ram disk come to (src/fs/open.c, src/fs/read.c,
-- src/syscalls.c).
use pell_os.Base.{
  ℕ, ◌<◌, ◌≡◌, ◌≢◌, ◌⊎◌, inl, inr, refl, ap, ◌∙◌, Bool, true, false, Option, none, some, List, [],
  sym, ◌∷◌, arith, All, if◌then◌else◌, ◌==◌, ◌>>=◌, eq_of_some,
}
use pell_os.Base.Int.{ℤ, pos, negsuc}
use pell_os.Fs.Fd.{File, FdTable, is_valid_fd, get_file_from_fd, create_fd}
use pell_os.Fs.Fd.Search.{in_use}
use pell_os.Fs.Fd.Create.{IsTable, Created, fd_count, create_fd-Outcome}
use pell_os.Fs.Fd.Delete.{delete_fd-create_fd}
use pell_os.Base.Memory.{Memory, store_le}
use pell_os.Fs.Rdfs.{Partition, file_get_id_from_path, open_file, read_file}
use pell_os.Fs.Rdfs.Strings.{IsCharacter, components}
use pell_os.Fs.Rdfs.Walk.{IsName, Reaches, file_get_id_from_path-Reaches}
use pell_os.Fs.Vfs.{same_string, timer_path, timer_id, vfs_open, vfs_read, syscall_read}

abbrev pub new_file : ℕ → ℕ → File
new_file id flags = record { file_id = id; index = 0; flags = flags }

open_file_lem :
    (p : Partition) (mem : Memory) (heap : ℕ → ℕ) (path : List ℕ) (flags : ℕ) (r : Option ℕ)
    → file_get_id_from_path p mem heap path ≡ some r
    → open_file p mem heap path flags
      ≡ some (elim r as (λ r. Option File) [ none ↦ none | some id ↦ some (new_file id flags) ])
unfolding open_file
open_file_lem p mem heap path flags r e =
    ap
      (λ o. o >>= (λ r.
        some (elim r as (λ r. Option File) [ none ↦ none | some id ↦ some (new_file id flags) ])))
      e

vfs_open_lem :
    (p : Partition) (mem : Memory) (heap : ℕ → ℕ) (block : List File) (path : List ℕ) (flags : ℕ)
    (t : FdTable) (r : Option File)
    → same_string path timer_path ≡ false
    → open_file p mem heap path flags ≡ some r
    → vfs_open p mem heap block path flags (some t)
      ≡ some (elim r as (λ r. ℤ × FdTable) [ none ↦ (pos 0, t) | some file ↦ create_fd file t ])
unfolding vfs_open
vfs_open_lem p mem heap block path flags t r other e = rw (other, e) refl

-- What opening a file of the ram disk comes to: with every descriptor in use, -1 and the same table;
-- else the lowest unused descriptor, through which the file is found, at its beginning, with every
-- other mark and entry kept.
abbrev pub Opened : (id flags : ℕ) → FdTable → ℤ × FdTable → Type 0
Opened id flags t (fd, t') =
    (((m : ℕ) → m < fd_count → in_use t.bitmap m ≡ 1) × (fd ≡ negsuc 0) × (t' ≡ t))
    ⊎ ((n : ℕ) × Created (new_file id flags) t fd t' n
        × IsTable t'
        × (get_file_from_fd fd t' ≡ some (some (new_file id 1))))

create_fd-Opened :
    (id flags : ℕ) (t : FdTable) → IsTable t → Opened id flags t (create_fd (new_file id flags) t)
create_fd-Opened id flags t v = elim (create_fd-Outcome (new_file id flags) t v) [
  | inl full ↦ inl full
  | inr (n, c, v') ↦
      let ok : (create_fd (new_file id flags) t).0 ≢ negsuc 0 =
        λ e. absurd (cc (sym c.descriptor ∙ e)) in
      inr (n, c, v', (delete_fd-create_fd (new_file id flags) t v ok).0)
]

-- In a memory of bytes, with blocks from the heap and a table in order, opening a path other than the
-- timer's, whose characters are not 0 and whose names have from 1 to 65535 characters. Either its
-- names lead from the root to a file: then the result is the lowest unused descriptor, through which
-- that file is found at its beginning, or, with all descriptors in use, -1 with the table unchanged.
-- Or they lead to none: then the result is 0, which is a descriptor, with the table unchanged.
pub vfs_open-Reaches :
    (p : Partition) (mem : Memory) (heap : ℕ → ℕ) (block : List File) (c : ℕ) (path : List ℕ)
    (flags : ℕ) (t : FdTable)
    → ((a : ℕ) → mem a < 256)
    → ((n : ℕ) → heap n ≢ 0)
    → IsTable t
    → All IsCharacter path
    → All IsName (components path)
    → same_string (c ∷ path) timer_path ≡ false
    → ((id : ℕ) × Reaches p mem 0 (components path) id
        × (fd : ℤ) × (t' : FdTable) × (vfs_open p mem heap block (c ∷ path) flags (some t)
            ≡ some (fd, t'))
        × Opened id flags t (fd, t'))
      ⊎ (((id : ℕ) → ¬ Reaches p mem 0 (components path) id)
          × (vfs_open p mem heap block (c ∷ path) flags (some t) ≡ some (pos 0, t)))
vfs_open-Reaches p mem heap block c path flags t bytes given v chars named other =
    elim (file_get_id_from_path-Reaches p mem bytes heap given c path chars named) [
      | inl (id, e, r, _) ↦ inl (
        id,
        r,
        (create_fd (new_file id flags) t).0,
        (create_fd (new_file id flags) t).1,
        vfs_open_lem p mem heap block (c ∷ path) flags t (some (new_file id flags)) other
            (open_file_lem p mem heap (c ∷ path) flags (some id) e),
        create_fd-Opened id flags t v,
      )
      | inr (e, never) ↦ inr (
        never,
        vfs_open_lem p mem heap block (c ∷ path) flags t none other
            (open_file_lem p mem heap (c ∷ path) flags none e),
      )
    ]

valid_of :
    (v : Option Bool) (o : Option (Option File)) (file : File)
    → (elim v as (λ v. Option (Option File)) [
      | none ↦ none
      | some valid ↦ if valid then o else some none
    ])
      ≡ some (some file)
    → v ≡ some true
valid_of none o file e = absurd cc
valid_of (some true) o file e = refl
valid_of (some false) o file e = absurd (let e' = eq_of_some e in cc)

module _ (p : Partition) (mem : Memory) (timer_val : ℕ) (fd : ℤ) (buf size : ℕ) (t : FdTable)
    (file : File) where
  -- What a call returns of a read of the file.
  abbrev returned : Option (ℤ × Memory × FdTable)
  returned = let (n, file', mem') = read_file p mem file buf size in some (pos n, mem', t)

  vfs_read_lem :
      get_file_from_fd fd t ≡ some (some file)
      → file.file_id ≢ timer_id
      → vfs_read p mem timer_val fd buf size t ≡ returned
  unfolding vfs_read
  vfs_read_lem e ne =
      let other : (file.file_id == timer_id) ≡ false = ground (arith, ne) in
      ap
        (λ (o : Option (Option File)). o >>= (λ found.
          some (elim found as (λ f. ℤ × Memory × FdTable) [
            | none ↦ (negsuc 0, mem, t)
            | some file ↦
                let (n, file', mem') = read_file p mem file buf size in
                if file.file_id == timer_id
                then (pos 4, store_le 4 buf timer_val mem, t)
                else (pos n, mem', t)
          ])))
        e
      ∙ ap
          (λ (b : Bool).
            let (n, file', mem') = read_file p mem file buf size in
            some (if b then (pos 4, store_le 4 buf timer_val mem, t) else (pos n, mem', t)))
          other

  syscall_read_lem :
      get_file_from_fd fd t ≡ some (some file)
      → file.file_id ≢ timer_id
      → buf ≢ 0
      → syscall_read p mem timer_val fd buf size t ≡ returned
  unfolding syscall_read
  syscall_read_lem e ne nonzero =
      let valid : is_valid_fd fd t ≡ some true =
        valid_of (is_valid_fd fd t) _ file (unfold get_file_from_fd in e) in
      let null : (buf == 0) ≡ false = ground (arith, nonzero) in
      let result = vfs_read p mem timer_val fd buf size t in
      ap
        (λ (v : Option Bool). v >>= (λ valid.
          if valid
          then (if buf == 0 then some (negsuc 0, mem, t) else result)
          else some (negsuc 0, mem, t)))
        valid
      ∙ ap (λ (b : Bool). if b then some (negsuc 0, mem, t) else result) null
      ∙ vfs_read_lem e ne

-- One read after the other through a descriptor, each given by the timer's value, a buffer and a
-- size: the results, and the memory and the table at the end.
unfoldable pub read_each :
    (p : Partition) → ℤ → List (ℕ × ℕ × ℕ) → Memory → FdTable → Option (List ℤ × Memory × FdTable)
unfolding syscall_read
read_each p fd [] mem t = some ([], mem, t)
read_each p fd ((timer_val, buf, size) ∷ calls) mem t = do
  (n, mem', t') ← syscall_read p mem timer_val fd buf size t
  (ns, mem'', t'') ← read_each p fd calls mem' t'
  some (n ∷ ns, mem'', t'')

-- The same reads, each of them of a file from its beginning.
abbrev pub from_start : (p : Partition) (file : File) → List (ℕ × ℕ × ℕ) → Memory → List ℤ × Memory
from_start p file [] mem = ([], mem)
from_start p file ((timer_val, buf, size) ∷ calls) mem =
    let (n, file', mem') = read_file p mem file buf size in
    let (ns, rest) = from_start p file calls mem' in (pos n ∷ ns, rest)

-- No buffer is null.
abbrev pub IsCall : ℕ × ℕ × ℕ → Type 0
IsCall (timer_val, buf, size) = buf ≢ 0

read_each-from_start :
    (p : Partition) (fd : ℤ) (t : FdTable) (file : File) (calls : List (ℕ × ℕ × ℕ)) (mem : Memory)
    → get_file_from_fd fd t ≡ some (some file)
    → file.file_id ≢ timer_id
    → All IsCall calls
    → let (ns, mem') = from_start p file calls mem in
      read_each p fd calls mem t ≡ some (ns, mem', t)
unfolding read_each
read_each-from_start p fd t file [] mem stored ne nonzero = refl
read_each-from_start p fd t file ((timer_val, buf, size) ∷ calls) mem stored ne (here, later) =
    let (n, file', mem') = read_file p mem file buf size in
    rw
      (
        syscall_read_lem p mem timer_val fd buf size t file stored ne here,
        read_each-from_start p fd t file calls mem' stored ne later,
      )
      refl

-- In a table in order, once a file of the ram disk has been given a descriptor: of any sequence of
-- system calls that read through this descriptor into buffers that are not null, every one reads the
-- file from its beginning, and none changes the table, so that the position never moves on.
pub syscall_read-create_fd :
    (p : Partition) (mem : Memory) (t : FdTable) (id flags : ℕ) (calls : List (ℕ × ℕ × ℕ))
    → IsTable t
    → (create_fd (new_file id flags) t).0 ≢ negsuc 0
    → id ≢ timer_id
    → All IsCall calls
    → let (fd, t') = create_fd (new_file id flags) t in
      let (ns, mem') = from_start p (new_file id 1) calls mem in
      read_each p fd calls mem t' ≡ some (ns, mem', t')
syscall_read-create_fd p mem t id flags calls v ok ne nonzero =
    let (fd, t') = create_fd (new_file id flags) t in
    let (stored, _) = delete_fd-create_fd (new_file id flags) t v ok in
    read_each-from_start p fd t' (new_file id 1) calls mem stored ne nonzero
