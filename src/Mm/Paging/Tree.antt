-- ===== src/Mm/Paging/Tree.antt =====
-- Trees of page tables in memory (src/mm/paging.c), and what handing out a page does to one.
use pell_os.Base.{
  ℕ, zero, suc, ◌+◌, ◌*◌, ◌<◌, ◌≤◌, ◌≡◌, ◌≢◌, ◌⊎◌, inl, inr, refl, sym, ap, ◌∙◌, arith, ==_iff,
  Option, none, some, List, [], ◌∷◌,
}
use pell_os.Mm.Pages.{Pages, mm_num_of_pages, page_size}
use pell_os.Mm.Pages.Scan.{used}
use pell_os.Mm.Pages.Alloc.{IsValid, Allocated, page_address}
use pell_os.Mm.Paging.Walk.{index, walk, IsAligned, walk-missing, walk-entry}

-- Page `t` is handed out.
abbrev pub IsInUse : Pages → ℕ → Type 0
IsInUse p t = (m : ℕ) × (t ≡ page_address m) × (m < mm_num_of_pages) × (used p.page_bitmap m ≡ 1)

-- Which pages are tables: the level of each, and the indices by which a walk gets to it.
abbrev pub Label : Type 0
Label = ℕ → Option (ℕ × List ℕ)

abbrev pub IsTable : Label → ℕ → ℕ → List ℕ → Type 0
IsTable label t d path = label t ≡ some (d, path)

abbrev pub NotTable : Label → ℕ → Type 0
NotTable label t = (d : ℕ) (path : List ℕ) → ¬ IsTable label t d path

-- A page in use that is no table.
abbrev pub IsData : Label → Pages → ℕ → Type 0
IsData label p t = IsInUse p t × NotTable label t

-- The 512 words of a page are the same.
abbrev pub SameWords : (words words' : ℕ → ℕ) → ℕ → Type 0
SameWords words words' t = (k : ℕ) → k < 512 → words' (t + 8 * k) ≡ words (t + 8 * k)

-- Every table is a page in use, and an entry above level 0 is 0 or leads to the table that the
-- index adds to the path.
pub record IsTree (label : Label) (p : Pages) : Type 0 where
  pub valid : IsValid p
  pub in_use : (t d : ℕ) (path : List ℕ) → IsTable label t d path → IsInUse p t
  pub entry :
      (t d : ℕ) (path : List ℕ) (i : ℕ)
      → IsTable label t (suc d) path
      → i < 512
      → (p.words (t + 8 * i) ≡ 0)
        ⊎ ((n : ℕ) × (p.words (t + 8 * i) ≡ n + 3) × IsTable label n d (i ∷ path))

pub IsInUse-IsAligned : (p : Pages) (t : ℕ) → IsInUse p t → IsAligned t
IsInUse-IsAligned p t (m, e, below, u) = omega arith

-- A word of one page is not a word of another, or at another index.
pub same_word :
    (s t i j : ℕ)
    → IsAligned s
    → IsAligned t
    → i < 512
    → j < 512
    → s + 8 * i ≡ t + 8 * j
    → (s ≡ t) × (i ≡ j)
same_word s t i j hs ht hi hj e = omega arith

module _ (p : Pages) (page : ℕ) (p' : Pages) (m : ℕ) (a : Allocated p page p' m) where
  -- The new page is not one that was in use.
  apart : (t i : ℕ) → IsInUse p t → i < 512 → (t + 8 * i < page) ⊎ (page + page_size ≤ t + 8 * i)
  apart t i (n, e, below, u) lt =
      let other : n ≢ m =
        λ same. omega (arith, sym (ap (λ k. used p.page_bitmap k) same) ∙ u, a.free_before) in
      grind (arith, a.address, e, other, lt)

  pub kept_in_use : (t : ℕ) → IsInUse p t → IsInUse p' t
  kept_in_use t (n, e, below, u) = (n, e, below, ground (arith, a.marked n, u))

  pub kept_word : (t i : ℕ) → IsInUse p t → i < 512 → p'.words (t + 8 * i) ≡ p.words (t + 8 * i)
  kept_word t i h lt = a.kept (t + 8 * i) (apart t i h lt)

  pub new_in_use : IsValid p → IsInUse p' page
  new_in_use v =
      (m, a.address, omega (arith, a.in_range, v.size), ground (arith, a.marked m, ==_iff m m))

  -- A tree stays one.
  pub IsTree-Allocated : (label : Label) → IsTree label p → IsValid p' → IsTree label p'
  IsTree-Allocated label tree v = record {
    valid = v;
    in_use = λ t d path h. kept_in_use t (tree.in_use t d path h);
    entry = λ t d path i h lt.
        rw (kept_word t i (tree.in_use t (suc d) path h) lt) (tree.entry t d path i h lt);
  }

  pub not_new : (t : ℕ) → IsInUse p t → t ≢ page
  not_new t (n, e, below, u) same =
      let number : n ≡ m = omega (arith, a.address, e, same) in
      omega (arith, sym (ap (λ k. used p.page_bitmap k) number) ∙ u, a.free_before)

  -- The new page is none of its tables.
  pub not_table : (label : Label) → IsTree label p → NotTable label page
  not_table label tree d path h = not_new page (tree.in_use page d path h) refl

-- Words that are the same in the tables of a tree: every walk ends as before.
module _ (label : Label) (p : Pages) (tree : IsTree label p) (w : ℕ → ℕ)
    (same : (s e : ℕ) (q : List ℕ) (j : ℕ)
      → IsTable label s e q
      → j < 512
      → w (s + 8 * j) ≡ p.words (s + 8 * j)) where
  pub walk_kept :
      (e s virt_adr : ℕ) (q : List ℕ)
      → IsTable label s e q
      → walk w e s virt_adr ≡ walk p.words e s virt_adr
  walk_kept zero s v q h = unfold walk in same s zero q (index 0 v) h (omega arith)
  walk_kept (suc e) s v q h =
      let kept = same s (suc e) q (index (suc e) v) h (omega arith) in
      elim (tree.entry s e q (index (suc e) v) h (omega arith)) [
        | inl z ↦ walk-missing w e s v (kept ∙ z) ∙ sym (walk-missing p.words e s v z)
        | inr (c, x, l) ↦
            (let aligned = IsInUse-IsAligned p c (tree.in_use c e _ l) in
              walk-entry w e s c v aligned (kept ∙ x)
              ∙ walk_kept e c v _ l
              ∙ sym (walk-entry p.words e s c v aligned x))
      ]

  pub IsTree-kept :
      (p' : Pages)
      → p'.words ≡ w
      → IsValid p'
      → ((t d : ℕ) (path : List ℕ) → IsTable label t d path → IsInUse p' t)
      → IsTree label p'
  IsTree-kept p' words v used = record {
    valid = v;
    in_use = used;
    entry = λ t d path i h lt. rw (words, same t (suc d) path i h lt) (tree.entry t d path i h lt);
  }

-- Every walk ends as before.
pub walk-Allocated :
    (p : Pages) (page : ℕ) (p' : Pages) (m : ℕ)
    → Allocated p page p' m
    → (label : Label) → IsTree label p
    → (e s virt_adr : ℕ) (q : List ℕ) → IsTable label s e q
    → walk p'.words e s virt_adr ≡ walk p.words e s virt_adr
walk-Allocated p page p' m a label tree =
    walk_kept label p tree p'.words (λ s e q j h. kept_word p page p' m a s j (tree.in_use s e q h))

-- The first number and the rest of a table's label.
pub label_parts :
    {d d' : ℕ} {path path' : List ℕ} {x : Option (ℕ × List ℕ)}
    → x ≡ some (d, path)
    → x ≡ some (d', path')
    → (d ≡ d') × (path ≡ path')
label_parts h h' = let e = sym h ∙ h' in (ap level e, ap path_of e)
  where
    level : Option (ℕ × List ℕ) → ℕ
    level none = 0
    level (some (d, path)) = d

    path_of : Option (ℕ × List ℕ) → List ℕ
    path_of none = []
    path_of (some (d, path)) = path
