-- ===== src/Mm/Paging/CopyRound.antt =====
-- The copy of an address space (`copy_virtual_memory` of src/mm/paging.c): what it promises, and one
-- round of its loop.
use pell_os.Base.{
  ℕ, ◌+◌, ◌-◌, ◌*◌, ◌/◌, ◌%◌, ◌^◌, ◌<◌, ◌≡◌, ◌≢◌, refl, sym, ap, ◌∙◌, arith, ◌==◌, Option, some,
  List, [], ◌∷◌, All, All-map, All-map₂, Bool, true, false,
}
use mathlib.Core.Path.{ap₂, subst}
use pell_os.Mm.Pages.{Pages, get_next_free_page}
use pell_os.Mm.Pages.Alloc.{IsValid}
use pell_os.Mm.Paging.{
  MemoryMap, UserPage, Space, copy_loop, copy_words, map_page, copy_user_page, allocate_user_page,
  max_process_pages, virtual_address_start,
}
use pell_os.Mm.Paging.Walk.{walk, physical, IsAligned}
use pell_os.Mm.Paging.Tree.{
  Label, IsTable, IsTree, IsData, NotTable, SameWords, IsInUse-IsAligned, walk_kept, IsTree-kept,
}
use pell_os.Mm.Paging.Grow.{HasRoom}
use pell_os.Mm.Paging.Directory.{lookup, IsSpace}
use pell_os.Mm.Paging.Filled.{old_page, new-IsAligned, filled-IsSpace, lookup-filled, kept-filled}
use pell_os.Mm.Paging.Fresh.{Fresh, map_page-Fresh, allocate_user_page_lem}
use pell_os.Mm.Paging.CopyWords.{copied_words, other_words}

-- The processor's translation, with the tables of the page directory `dir` in the words of memory.
abbrev pub processor : (words : ℕ → ℕ) → (dir virt_adr : ℕ) → ℕ
processor words dir virt_adr = physical (walk words 3 dir virt_adr) virt_adr

abbrev pub page_number : ℕ → ℕ
page_number virt_adr = virt_adr / 4096 % 2 ^ 36

-- Every two of the pages have different page numbers.
abbrev pub IsDistinct : List UserPage → Type 0
IsDistinct [] = Unit
IsDistinct (u ∷ us) =
    All (λ (v : UserPage). page_number v.virtual_adr ≢ page_number u.virtual_adr) us × IsDistinct us

-- The parent's page directory and tables, none of which is a table of the child; its pages are there
-- and are no tables of the child.
pub record IsParent (parent child : Label) (dir : ℕ) (us : List UserPage) (p : Pages) : Type 0 where
  pub tree : IsTree parent p
  pub root : IsTable parent dir 3 []
  pub apart : (t d : ℕ) (path : List ℕ) → IsTable parent t d path → NotTable child t
  pub sources : All (λ (u : UserPage). IsData child p (processor p.words dir u.virtual_adr)) us

-- The child's page for the parent's page `u`: it is none of the pages that were in use, and holds
-- the words that the parent's page held.
pub record IsCopied (child : Label) (dir : ℕ) (s space : Space) (u : UserPage) : Type 0 where
  pub page : ℕ
  pub found : physical (lookup space u.virtual_adr) u.virtual_adr ≡ page + u.virtual_adr % 4096
  pub fresh : (t : ℕ) → IsData child s.1 t → t ≢ page
  pub words :
      (k : ℕ)
      → k < 512
      → space.1.words (page + 8 * k) ≡ s.1.words (processor s.1.words dir u.virtual_adr + 8 * k)

-- All pages are copied; the child's other addresses are translated as before, and the pages in use
-- that are no tables of the child are kept.
pub record Copied (child : Label) (dir : ℕ) (us : List UserPage) (s : Space)
    (r : Option (Bool × Space)) : Type 0 where
  pub space : Space
  pub labels : Label
  pub result : r ≡ some (true, space)
  pub valid : IsSpace labels space
  pub copies : All (IsCopied child dir s space) us
  pub others :
      (va : ℕ)
      → All (λ (u : UserPage). page_number va ≢ page_number u.virtual_adr) us
      → lookup space va ≡ lookup s va
  pub kept :
      (t : ℕ) → IsData child s.1 t → IsData labels space.1 t × SameWords s.1.words space.1.words t

copy_loop-round :
    (translate : (ℕ → ℕ) → ℕ → ℕ → ℕ) (dir : ℕ) (u : UserPage) (us : List UserPage)
    (s s' s'' : Space) (page : ℕ)
    → allocate_user_page u.virtual_adr s ≡ some (page + virtual_address_start, s')
    → copy_user_page translate dir u.virtual_adr (page + virtual_address_start) s' ≡ s''
    → copy_loop translate dir (u ∷ us) s ≡ copy_loop translate dir us s''
unfolding copy_loop
copy_loop-round translate dir u us s s' s'' page e e' =
    let there : (page + virtual_address_start == 0) ≡ false = ground arith in rw (e, there, e') refl

copy_user_page_lem :
    (translate : (ℕ → ℕ) → ℕ → ℕ → ℕ) (dir va page source : ℕ) (s : Space)
    → translate s.1.words dir va ≡ source
    → copy_user_page translate dir va (page + virtual_address_start) s
      ≡ (s.0, record s.1 { words = copy_words 512 page source s.1.words })
unfolding copy_user_page
copy_user_page_lem translate dir va page source s e =
    let back : page + virtual_address_start - virtual_address_start ≡ page = omega arith in
    ap₂ (λ dest src. (s.0, record s.1 { words = copy_words 512 dest src s.1.words })) back e

-- One round of the loop.
module _ (parent child : Label) (dir : ℕ) (u : UserPage) (us : List UserPage) (mm : MemoryMap)
    (p : Pages) (n : ℕ) (h : IsParent parent child dir (u ∷ us) p) (v : IsSpace child (mm, p))
    (room : HasRoom (n + 5) (mm, p)) (few : mm.userpages_count < max_process_pages) where
  abbrev va : ℕ
  va = u.virtual_adr

  abbrev page : ℕ
  page = (get_next_free_page p).0

  pub f : Fresh child va n (mm, p) page (map_page va page (mm, (get_next_free_page p).1))
  f = map_page-Fresh va n child mm p v room few

  abbrev p₁ : Pages
  p₁ = f.space.1

  abbrev source : ℕ
  source = processor p.words dir va

  abbrev words₂ : ℕ → ℕ
  words₂ = copy_words 512 page source p₁.words

  abbrev pub p₂ : Pages
  p₂ = record p₁ { words = words₂ }

  page-IsAligned : IsAligned page
  page-IsAligned = new-IsAligned child va n (mm, p) page f

  -- Only the new page is written.
  only : (t : ℕ) → IsAligned t → t ≢ page → SameWords p₁.words words₂ t
  only = other_words page source p₁.words page-IsAligned

  kept₁ : (t : ℕ) → IsData child p t → SameWords p.words words₂ t
  kept₁ t d = (kept-filled child va n (mm, p) page f words₂ only t d).1

  -- The words of the parent's tables.
  parent-IsData : (t d : ℕ) (q : List ℕ) → IsTable parent t d q → IsData child p t
  parent-IsData t d q x = (h.tree.in_use t d q x, h.apart t d q x)

  source₁ : processor p₁.words dir va ≡ source
  source₁ =
      ap (λ entry. physical entry va)
        (walk_kept parent p h.tree p₁.words
          (λ s e q j x lt. (f.kept s (parent-IsData s e q x)).1 j lt) 3 dir va [] h.root)

  pages-IsValid : IsValid p₂
  pages-IsValid = record { bytes = f.valid.tree.valid.bytes; size = f.valid.tree.valid.size }

  source₂ :
      (w : UserPage) → processor words₂ dir w.virtual_adr ≡ processor p.words dir w.virtual_adr
  source₂ w =
      ap (λ entry. physical entry w.virtual_adr)
        (walk_kept parent p h.tree words₂ (λ s e q j x. kept₁ s (parent-IsData s e q x) j) 3 dir
          w.virtual_adr [] h.root)

  pub parent₂ : IsParent parent f.labels dir us p₂
  parent₂ = record {
    tree =
        IsTree-kept parent p h.tree words₂ (λ s e q j x. kept₁ s (parent-IsData s e q x) j) p₂ refl
          pages-IsValid (λ s e q x. (f.kept s (parent-IsData s e q x)).0.0);
    root = h.root;
    apart = λ s e q x. (f.kept s (parent-IsData s e q x)).0.1;
    sources =
        All-map (λ (w : UserPage). IsData child p (processor p.words dir w.virtual_adr))
          (λ (w : UserPage). IsData f.labels p₂ (processor words₂ dir w.virtual_adr)) us
          (λ w d. subst (IsData f.labels p₂) (sym (source₂ w)) (f.kept _ d).0) h.sources.1;
  }

  pub valid₂ : IsSpace f.labels (f.space.0, p₂)
  valid₂ = filled-IsSpace child va n (mm, p) page f words₂ only

  lookup₂ : (va' : ℕ) → lookup (f.space.0, p₂) va' ≡ lookup f.space va'
  lookup₂ = lookup-filled child va n (mm, p) page f words₂ only

  round_lem : copy_loop processor dir (u ∷ us) (mm, p) ≡ copy_loop processor dir us (f.space.0, p₂)
  unfolding f
  round_lem =
      copy_loop-round processor dir u us (mm, p) f.space (f.space.0, p₂) page
        (allocate_user_page_lem va n child mm p v room few)
        (copy_user_page_lem processor dir va page source f.space source₁)

  abbrev Rest : Type 0
  Rest = Copied f.labels dir us (f.space.0, p₂) (copy_loop processor dir us (f.space.0, p₂))

  here-IsCopied :
      (c : Rest)
      → All (λ (w : UserPage). page_number w.virtual_adr ≢ page_number va) us
      → IsCopied child dir (mm, p) c.space u
  here-IsCopied c differ = record {
    page = page;
    found =
        ap (λ entry. physical entry va)
          (c.others va (
              All-map (λ (w : UserPage). page_number w.virtual_adr ≢ page_number va)
                (λ (w : UserPage). page_number va ≢ page_number w.virtual_adr) us
                (λ w ne e. ne (sym e)) differ)
            ∙ lookup₂ va)
        ∙ f.found;
    fresh = λ t d. old_page child va n (mm, p) page f t d.0;
    words = λ k lt.
        (c.kept page f.is_data).1 k lt
        ∙ copied_words page source p₁.words page-IsAligned
            (IsInUse-IsAligned p source h.sources.0.0)
            (old_page child va n (mm, p) page f source h.sources.0.0) k lt
        ∙ (f.kept source h.sources.0).1 k lt;
  }

  later-IsCopied : (c : Rest) → All (IsCopied child dir (mm, p) c.space) us
  later-IsCopied c =
      All-map₂ (λ (w : UserPage). IsData child p (processor p.words dir w.virtual_adr))
        (IsCopied f.labels dir (f.space.0, p₂) c.space) (IsCopied child dir (mm, p) c.space) us
        (λ w d i. record {
          page = i.page;
          found = i.found;
          fresh = λ t x. i.fresh t (f.kept t x).0;
          words = λ k lt. i.words k lt ∙ ap (λ t. words₂ (t + 8 * k)) (source₂ w) ∙ kept₁ _ d k lt;
        })
        h.sources.1 c.copies

  -- What the rest of the loop adds to the round.
  pub copied-round :
      IsDistinct (u ∷ us)
      → Copied f.labels dir us (f.space.0, p₂) (copy_loop processor dir us (f.space.0, p₂))
      → Copied child dir (u ∷ us) (mm, p) (copy_loop processor dir (u ∷ us) (mm, p))
  copied-round (differ, _) c = record {
    space = c.space;
    labels = c.labels;
    result = round_lem ∙ c.result;
    valid = c.valid;
    copies = (here-IsCopied c differ, later-IsCopied c);
    others = λ va' (no_u, no_us). c.others va' no_us ∙ lookup₂ va' ∙ f.others va' no_u;
    kept = λ t d. let (d', w) = c.kept t (f.kept t d).0 in (d', λ k lt. w k lt ∙ kept₁ t d k lt);
  }
