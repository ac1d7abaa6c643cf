-- ===== src/Mm/Paging/Grow.antt =====
-- One level of `map_page` (src/mm/paging.c): the table that it goes on to, and what it does to the
-- tree.
use pell_os.Base.{ℕ, suc, ◌+◌, ◌*◌, ◌<◌, ◌≤◌, ◌≡◌, ◌≢◌, refl, sym, ◌∙◌, Option, some, List, ◌∷◌}
use pell_os.Mm.Pages.{Pages}
use pell_os.Mm.Pages.Count.{free_pages}
use pell_os.Mm.Paging.{MemoryMap, Space, max_process_pages}
use pell_os.Mm.Paging.Walk.{index, walk}
use pell_os.Mm.Paging.Tree.{Label, IsTable, IsTree, IsData, SameWords}

-- A tree has grown: the tables and their entries are still there, every walk ends as before, and the
-- pages that are no tables are kept.
pub record IsGrown (label : Label) (p : Pages) (label' : Label) (p' : Pages) : Type 0 where
  pub tree : IsTree label' p'
  pub table : (s e : ℕ) (q : List ℕ) → IsTable label s e q → IsTable label' s e q
  pub walks :
      (s e virt_adr : ℕ) (q : List ℕ)
      → IsTable label s e q
      → walk p'.words e s virt_adr ≡ walk p.words e s virt_adr
  pub entries :
      (s e j : ℕ) (q : List ℕ)
      → IsTable label s e q
      → j < 512
      → p.words (s + 8 * j) ≢ 0
      → p'.words (s + 8 * j) ≡ p.words (s + 8 * j)
  pub kept : (t : ℕ) → IsData label p t → IsData label' p' t × SameWords p.words p'.words t

pub IsGrown-refl : (label : Label) (p : Pages) → IsTree label p → IsGrown label p label p
IsGrown-refl label p t = record {
  tree = t;
  table = λ s e q h. h;
  walks = λ s e v q h. refl;
  entries = λ s e j q h lt ne. refl;
  kept = λ t h. (h, λ k lt. refl);
}

pub IsGrown-trans :
    (label : Label) (p : Pages) (label' : Label) (p' : Pages) (label'' : Label) (p'' : Pages)
    → IsGrown label p label' p'
    → IsGrown label' p' label'' p''
    → IsGrown label p label'' p''
IsGrown-trans label p label' p' label'' p'' g g' = record {
  tree = g'.tree;
  table = λ s e q h. g'.table s e q (g.table s e q h);
  walks = λ s e v q h. g'.walks s e v q (g.table s e q h) ∙ g.walks s e v q h;
  entries = λ s e j q h lt ne.
      let kept = g.entries s e j q h lt ne in
      g'.entries s e j q (g.table s e q h) lt (λ z. ne (sym kept ∙ z)) ∙ kept;
  kept = λ t h.
      let (h', w) = g.kept t h in let (h'', w') = g'.kept t h' in (h'', λ k lt. w' k lt ∙ w k lt);
}

-- What a level asks of the memory map and the machine, for `n` tables more.
pub record HasRoom (n : ℕ) (s : Space) : Type 0 where
  pub entries : s.0.kernelpages_count + n < max_process_pages
  pub pages : n ≤ free_pages s.1

-- All but the kernel pages of the memory map is kept.
abbrev pub SameMap : MemoryMap → MemoryMap → Type 0
SameMap mm mm' =
    (mm'.pagedirectory ≡ mm.pagedirectory)
    × (mm'.userpages_count ≡ mm.userpages_count)
    × (mm'.userpages ≡ mm.userpages)

-- The outcome of a level: the next table, at the end of the path, and the entry that leads to it.
pub record Level (label : Label) (s : Space) (t d n virt_adr : ℕ) (path : List ℕ)
    (r : Option (ℕ × Space)) : Type 0 where
  pub next : ℕ
  pub space : Space
  pub labels : Label
  pub result : r ≡ some (next, space)
  pub grown : IsGrown label s.1 labels space.1
  pub here : IsTable labels next d (index (suc d) virt_adr ∷ path)
  pub link : space.1.words (t + 8 * index (suc d) virt_adr) ≡ next + 3
  pub room : HasRoom n space
  pub same : SameMap s.0 space.0
