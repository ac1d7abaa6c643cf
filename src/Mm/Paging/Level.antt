-- ===== src/Mm/Paging/Level.antt =====
-- The outcome of one level of `map_page` (src/mm/paging.c).
use pell_os.Base.{
  ℕ, suc, ◌+◌, ◌*◌, ◌<◌, ◌≡◌, inl, inr, refl, ◌∙◌, arith, ◌==◌, ltb, true, false, Option, some,
  List, ◌∷◌, set,
}
use mathlib.Core.Path.{ap₂}
use pell_os.Mm.Pages.{Pages, store, get_next_free_page}
use pell_os.Mm.Pages.Count.{free_pages, get_next_free_page-counts}
use pell_os.Mm.Paging.{MemoryMap, Space, map_table, map_level, push_kernelpage, max_process_pages}
use pell_os.Mm.Paging.Walk.{shift_at, index, slot-index, table_entry, masked_entry, IsAligned}
use pell_os.Mm.Pages.Alloc.{IsValid, Allocated}
use pell_os.Mm.Paging.NewTable.{
  IsData-extend, same_data, extend, extend-table, extend_self, IsTree-extend, walk-extend, old_word,
  stored, IsNewTable,
}
use pell_os.Mm.Paging.Tree.{
  IsData, kept_in_use, not_new, Label, IsTable, IsTree, IsInUse-IsAligned, IsTree-Allocated,
  kept_word, new_in_use, not_table, walk-Allocated,
}
use pell_os.Mm.Paging.Grow.{IsGrown-refl, HasRoom, Level}

map_table-old :
    (t d va c : ℕ) (p : Pages)
    → IsAligned c
    → p.words (t + 8 * index (suc d) va) ≡ c + 3
    → map_table t (shift_at (suc d)) va p ≡ (c, false, p)
unfolding map_table
map_table-old t d va c p h e =
    let there : (c + 3 == 0) ≡ false = ground arith in
    rw (slot-index t (suc d) va, e, there, masked_entry c h) refl

map_table-new :
    (t d va : ℕ) (p : Pages)
    → IsAligned (get_next_free_page p).0
    → p.words (t + 8 * index (suc d) va) ≡ 0
    → map_table t (shift_at (suc d)) va p ≡ (
      (get_next_free_page p).0,
      true,
      record (get_next_free_page p).1 {
        words =
            store
              (get_next_free_page p).1.words
              (t + 8 * index (suc d) va)
              ((get_next_free_page p).0 + 3);
      },
    )
unfolding map_table
map_table-new t d va p h e = rw (slot-index t (suc d) va, e, table_entry _ h) refl

-- The kernel page is recorded when there is room for it.
pub push_kernelpage-room :
    (page : ℕ) (mm : MemoryMap)
    → mm.kernelpages_count + 1 < max_process_pages
    → push_kernelpage page mm
      ≡ some (record mm {
        kernelpages_count = mm.kernelpages_count + 1;
        kernelpages = set mm.kernelpages (mm.kernelpages_count + 1) page;
      })
unfolding push_kernelpage
push_kernelpage-room page mm room =
    let e : ltb (mm.kernelpages_count + 1) max_process_pages ≡ true = ground arith in rw e refl

map_level-old :
    (t d va c : ℕ) (mm : MemoryMap) (p : Pages)
    → map_table t (shift_at (suc d)) va p ≡ (c, false, p)
    → map_level t (shift_at (suc d)) va (mm, p) ≡ some (c, (mm, p))
unfolding map_level
map_level-old t d va c mm p e = rw e refl

map_level-new :
    (t d va n : ℕ) (mm mm' : MemoryMap) (p p' : Pages)
    → map_table t (shift_at (suc d)) va p ≡ (n, true, p')
    → push_kernelpage n mm ≡ some mm'
    → map_level t (shift_at (suc d)) va (mm, p) ≡ some (n, (mm', p'))
unfolding map_level
map_level-new t d va n mm mm' p p' e e' = rw (e, e') refl

module _ (label : Label) (mm : MemoryMap) (p : Pages) (tree : IsTree label p) (t d n va : ℕ)
    (path : List ℕ) (here : IsTable label t (suc d) path) (room : HasRoom (suc n) (mm, p)) where
  abbrev i : ℕ
  i = index (suc d) va

  abbrev outcome : Option (ℕ × Space)
  outcome = map_level t (shift_at (suc d)) va (mm, p)

  level-old :
      (c : ℕ)
      → p.words (t + 8 * i) ≡ c + 3
      → IsTable label c d (i ∷ path)
      → Level label (mm, p) t d n va path outcome
  level-old c w l = record {
    next = c;
    space = (mm, p);
    labels = label;
    result =
        map_level-old t d va c mm p
          (map_table-old t d va c p (IsInUse-IsAligned p c (tree.in_use c d (i ∷ path) l)) w);
    grown = IsGrown-refl label p tree;
    here = l;
    link = w;
    room = record { entries = omega (arith, room.entries); pages = omega (arith, room.pages) };
    same = (refl, refl, refl);
  }

  abbrev page : ℕ
  page = (get_next_free_page p).0

  abbrev p' : Pages
  p' = (get_next_free_page p).1

  level-Allocated :
      (m : ℕ)
      → Allocated p page p' m
      → IsValid p'
      → free_pages p ≡ free_pages p' + 1
      → p.words (t + 8 * i) ≡ 0
      → Level label (mm, p) t d n va path outcome
  level-Allocated m a v count missing = record {
    next = page;
    space = (mm', record p' { words = store p'.words (t + 8 * i) (page + 3) });
    labels = extend label page d (i ∷ path);
    result =
        map_level-new t d va page mm mm' p _
          (map_table-new t d va p (IsInUse-IsAligned p' page new.used_n) missing)
          (push_kernelpage-room page mm (omega (arith, room.entries)));
    grown = record {
      tree = IsTree-extend label p' t d i page path new;
      table = extend-table label page d (i ∷ path) new.fresh;
      walks = λ s e v q h.
          walk-extend label p' t d i page path new e s v q h
          ∙ walk-Allocated p page p' m a label tree e s v q h;
      entries = λ s e j q h small ne. elim (old_word label p' t d i page path new s e j q h small) [
        | inl (es, ej, w) ↦ absurd (ne (ap₂ (λ s j. p.words (s + 8 * j)) es ej ∙ missing))
        | inr same ↦ same ∙ kept s e j q h small
      ];
      kept = λ s (u, no_table).
          let old : IsData label p' s = (kept_in_use p page p' m a s u, no_table) in
          (
            IsData-extend label page d (i ∷ path) new.fresh p' s old (not_new p page p' m a s u),
            λ k small.
                same_data label p' t d i page path new s old k small
                ∙ kept_word p page p' m a s k u small,
          );
    };
    here = extend_self label page d (i ∷ path) new.fresh;
    link = stored label p' t d i page path new;
    room = record {
      entries = omega (arith, room.entries);
      pages = unfold free_pages in omega (arith, room.pages, count);
    };
    same = (refl, refl, refl);
  }
    where
      mm' : MemoryMap
      mm' = record mm {
        kernelpages_count = mm.kernelpages_count + 1;
        kernelpages = set mm.kernelpages (mm.kernelpages_count + 1) page;
      }

      kept :
          (s e j : ℕ) (q : List ℕ)
          → IsTable label s e q
          → j < 512
          → p'.words (s + 8 * j) ≡ p.words (s + 8 * j)
      kept s e j q h small = kept_word p page p' m a s j (tree.in_use s e q h) small

      new : IsNewTable label p' t d i page path
      new = record {
        tree = IsTree-Allocated p page p' m a label tree v;
        here = here;
        small = omega arith;
        missing = kept t (suc d) i path here (omega arith) ∙ missing;
        fresh = not_table p page p' m a label tree;
        used_n = new_in_use p page p' m a tree.valid;
        zeros = a.zeroed;
      }

  -- The entry was there, or a table is made for it.
  pub map_level-Level : Level label (mm, p) t d n va path outcome
  map_level-Level = elim (tree.entry t d path i here (omega arith)) [
    | inl missing ↦
        (let (m, a, v, count) =
            get_next_free_page-counts p tree.valid (omega (arith, room.pages)) in
          level-Allocated m a v count missing)
    | inr (c, w, l) ↦ level-old c w l
  ]
