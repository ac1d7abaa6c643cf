-- ===== src/Fs/Rdfs/Strings.antt =====
-- The strings of the ram disk (src/fs/rdfs/rdfs.c): how a path falls into names, and when two names
-- are the same.
use pell_os.Base.{
  ℕ, ◌+◌, ◌<◌, ◌≤◌, ◌≡◌, ◌↔◌, refl, ap, List, [], ◌∷◌, arith, ◌==◌, if◌then◌else◌, length, All,
  Bool-cases, inl, inr,
}
use pell_os.Base.Memory.{Memory}
use pell_os.Fs.Rdfs.{strcmp, cut_name}

-- The string `b` stands at address `a`, with the byte 0 after it.
abbrev pub StandsAt : Memory → ℕ → List ℕ → Type 0
StandsAt mem a [] = mem a ≡ 0
StandsAt mem a (c ∷ b) = (mem a ≡ c) × StandsAt mem (a + 1) b

abbrev pub IsCharacter : ℕ → Type 0
IsCharacter c = (0 < c) × (c < 256)

-- `strcmp` is 0 for equal strings alone.
pub strcmp-StandsAt :
    (mem : Memory) (a : ℕ) (b : List ℕ)
    → ((a : ℕ) → mem a < 256)
    → All IsCharacter b
    → (strcmp mem a b ≡ 0) ↔ StandsAt mem a b
unfolding strcmp
strcmp-StandsAt mem a [] bytes chars = ground (arith, bytes a)
strcmp-StandsAt mem a (c ∷ b) bytes (char, chars) =
    let ih = strcmp-StandsAt mem (a + 1) b bytes chars in
    (λ e. ground (arith, ih.0, bytes a), λ (e, s). let e' = ih.1 s in ground (arith))

-- The names of a path: it is cut at each `/`, and one at the end adds no name.
abbrev pub prepend : ℕ → List (List ℕ) → List (List ℕ)
prepend c [] = (c ∷ []) ∷ []
prepend c (name ∷ names) = (c ∷ name) ∷ names

abbrev pub components : List ℕ → List (List ℕ)
components [] = []
components (c ∷ path) = if c == 47 then [] ∷ components path else prepend c (components path)

pub components-cut_name :
    (c : ℕ) (path : List ℕ)
    → components (c ∷ path) ≡ (cut_name (c ∷ path)).0 ∷ components (cut_name (c ∷ path)).1
unfolding cut_name
components-cut_name c [] = elim (Bool-cases (c == 47)) [ inl e ↦ rw e refl | inr e ↦ rw e refl ]
components-cut_name c (d ∷ path) =
    let ih = components-cut_name d path in
    elim (Bool-cases (c == 47)) [ inl e ↦ rw e refl | inr e ↦ rw e (ap (prepend c) ih) ]

pub cut_name-IsCharacter :
    (path : List ℕ)
    → All IsCharacter path
    → All IsCharacter (cut_name path).0 × All IsCharacter (cut_name path).1
unfolding cut_name
cut_name-IsCharacter [] chars = (tt, tt)
cut_name-IsCharacter (c ∷ path) (char, chars) =
    let ih = cut_name-IsCharacter path chars in
    elim (Bool-cases (c == 47)) [ inl e ↦ rw e (tt, chars) | inr e ↦ rw e ((char, ih.0), ih.1) ]

pub length-cut_name : (c : ℕ) (path : List ℕ) → length (cut_name (c ∷ path)).1 ≤ length path
unfolding cut_name
length-cut_name c [] = ground arith
length-cut_name c (d ∷ path) = ground (arith, length-cut_name d path)
