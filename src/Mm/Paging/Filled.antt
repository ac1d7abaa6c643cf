-- ===== src/Mm/Paging/Filled.antt =====
-- A new page of a task that is written after it was mapped (`copy_virtual_memory` of src/mm/paging.c
-- and `move_to_userspace` of src/scheduler/task.c).
use pell_os.Base.{ℕ, ◌+◌, ◌*◌, ◌<◌, ◌≡◌, ◌≢◌, refl, sym, ap, ◌∙◌, arith, Option, List}
use mathlib.Core.Path.{subst}
use pell_os.Mm.Pages.{Pages}
use pell_os.Mm.Pages.Scan.{used}
use pell_os.Mm.Pages.Alloc.{IsValid}
use pell_os.Mm.Paging.{Space}
use pell_os.Mm.Paging.Walk.{IsAligned}
use pell_os.Mm.Paging.Tree.{
  Label, IsTable, IsInUse, IsData, SameWords, IsInUse-IsAligned, IsTree-kept,
}
use pell_os.Mm.Paging.Directory.{lookup_kept, lookup, IsSpace}
use pell_os.Mm.Paging.Fresh.{Fresh}

module _ (label : Label) (va n : ℕ) (s : Space) (page : ℕ) {r : Option Space}
    (f : Fresh label va n s page r) where
  -- A page that was in use is not the new one.
  pub old_page : (t : ℕ) → IsInUse s.1 t → t ≢ page
  old_page t (m, e, below, used_m) same =
      let number : m ≡ f.number = omega (arith, e, same, f.address) in
      omega (arith, sym (ap (λ k. used s.1.page_bitmap k) number) ∙ used_m, f.free_before)

  pub new-IsAligned : IsAligned page
  new-IsAligned = IsInUse-IsAligned f.space.1 page f.is_data.0

  module _ (w : ℕ → ℕ)
      (only : (t : ℕ) → IsAligned t → t ≢ page → SameWords f.space.1.words w t) where
    abbrev pub filled : Pages
    filled = record f.space.1 { words = w }

    -- The words of its tables.
    table_words :
        (t e : ℕ) (q : List ℕ) (j : ℕ)
        → IsTable f.labels t e q
        → j < 512
        → w (t + 8 * j) ≡ f.space.1.words (t + 8 * j)
    table_words t e q j x =
        only t (IsInUse-IsAligned f.space.1 t (f.valid.tree.in_use t e q x))
          (λ same. f.is_data.1 e q (subst (λ t. IsTable f.labels t e q) same x)) j

    filled-IsValid : IsValid filled
    filled-IsValid = record { bytes = f.valid.tree.valid.bytes; size = f.valid.tree.valid.size }

    pub filled-IsSpace : IsSpace f.labels (f.space.0, filled)
    filled-IsSpace = record {
      tree =
          IsTree-kept f.labels f.space.1 f.valid.tree w table_words filled refl filled-IsValid
            f.valid.tree.in_use;
      root = f.valid.root;
    }

    pub lookup-filled : (a : ℕ) → lookup (f.space.0, filled) a ≡ lookup f.space a
    lookup-filled = lookup_kept f.labels f.space.0 f.space.1 filled f.valid table_words

    pub kept-filled :
        (t : ℕ) → IsData label s.1 t → IsData f.labels filled t × SameWords s.1.words w t
    kept-filled t d = (
      (f.kept t d).0,
      λ k lt. only t (IsInUse-IsAligned s.1 t d.0) (old_page t d.0) k lt ∙ (f.kept t d).1 k lt,
    )
