-- ===== src/Mm/Paging/Map.antt =====
-- `map_page` (src/mm/paging.c): which address a page is found at afterwards, and that all others
-- are translated as before.
use pell_os.Base.{
  ℕ, suc, ◌+◌, ◌*◌, ◌/◌, ◌%◌, ◌^◌, ◌<◌, ◌≡◌, ◌≢◌, inl, inr, refl, sym, ap, ◌∙◌, arith, ◌==◌, ==_iff,
  ltb, true, false, Option, some, List, [], ◌∷◌, set,
}
use mathlib.Core.Path.{subst}
use pell_os.Mm.Pages.{Pages, store}
use pell_os.Mm.Pages.Count.{free_pages}
use pell_os.Mm.Paging.{
  MemoryMap, UserPage, Space, map_page, map_table_entry, push_userpage, max_process_pages,
  map_level, ensure_directory, pgd_shift, pud_shift, pmd_shift,
}
use pell_os.Mm.Paging.Walk.{
  index, walk, slot-index, page_entry, physical, IsAligned, walk-entry, target-entry,
}
use pell_os.Mm.Paging.Tree.{IsData, SameWords, Label, IsTable, IsInUse-IsAligned}
use pell_os.Mm.Paging.Leaf.{leaf_data, same_route, leaf_word, leaf-above, IsTree-leaf, walk-leaf}
use pell_os.Mm.Paging.Grow.{IsGrown, IsGrown-refl, IsGrown-trans, HasRoom, SameMap, Level}
use pell_os.Mm.Paging.Level.{map_level-Level}
use pell_os.Mm.Paging.Directory.{lookup, IsSpace, Rooted, ensure_directory-Rooted}

push_userpage-room :
    (u : UserPage) (mm : MemoryMap)
    → mm.userpages_count < max_process_pages
    → push_userpage u mm
      ≡ some (record mm {
        userpages_count = mm.userpages_count + 1;
        userpages = set mm.userpages mm.userpages_count u;
      })
unfolding push_userpage
push_userpage-room u mm room =
    let e : ltb mm.userpages_count max_process_pages ≡ true = ground arith in rw e refl

map_table_entry_lem :
    (pte va pa : ℕ) (p : Pages)
    → IsAligned pa
    → map_table_entry pte va pa p
      ≡ record p { words = store p.words (pte + 8 * index 0 va) (pa + 0x447) }
unfolding map_table_entry
map_table_entry_lem pte va pa p h = rw (slot-index pte 0 va, page_entry pa h) refl

-- The four tables of a walk, and the entry at its end.
walk-chain :
    (w : ℕ → ℕ) (dir pud pmd pte va value : ℕ)
    → IsAligned pud
    → IsAligned pmd
    → IsAligned pte
    → w (dir + 8 * index 3 va) ≡ pud + 3
    → w (pud + 8 * index 2 va) ≡ pmd + 3
    → w (pmd + 8 * index 1 va) ≡ pte + 3
    → w (pte + 8 * index 0 va) ≡ value
    → walk w 3 dir va ≡ value
unfolding walk
walk-chain w dir pud pmd pte va value h h' h'' e e' e'' e''' =
    walk-entry w 2 dir pud va h e
    ∙ walk-entry w 1 pud pmd va h' e'
    ∙ walk-entry w 0 pmd pte va h'' e''
    ∙ e'''

-- What `map_page` promises: the page's address is translated to the page, those of other pages as
-- before, the tables are a tree again, and the page is recorded among the task's.
pub record Mapped (label : Label) (va page n : ℕ) (s : Space) (r : Option Space) : Type 0 where
  pub space : Space
  pub labels : Label
  pub result : r ≡ some space
  pub valid : IsSpace labels space
  pub found : physical (lookup space va) va ≡ page + va % 4096
  pub others :
      (va' : ℕ) → va' / 4096 % 2 ^ 36 ≢ va / 4096 % 2 ^ 36 → lookup space va' ≡ lookup s va'
  pub kept :
      (t : ℕ) → IsData label s.1 t → IsData labels space.1 t × SameWords s.1.words space.1.words t
  pub room : HasRoom n space
  pub count : space.0.userpages_count ≡ s.0.userpages_count + 1
  pub recorded :
      space.0.userpages
      ≡ set s.0.userpages s.0.userpages_count (record { physical_adr = page; virtual_adr = va })

module _ (label : Label) (va page n : ℕ) (s : Space) (aligned : IsAligned page)
    (few : s.0.userpages_count < max_process_pages)
    (d : Rooted label (suc (suc (suc n))) s (ensure_directory s)) where
  abbrev dir : ℕ
  dir = d.space.0.pagedirectory

  step₁ : Level d.labels d.space dir 2 (suc (suc n)) va [] (map_level dir pgd_shift va d.space)
  step₁ =
      map_level-Level d.labels d.space.0 d.space.1 d.tree dir 2 (suc (suc n)) va [] d.root d.room

  step₂ :
      Level step₁.labels step₁.space step₁.next 1
        (suc n)
        va
        (index 3 va ∷ [])
        (map_level step₁.next pud_shift va step₁.space)
  step₂ =
      map_level-Level step₁.labels step₁.space.0 step₁.space.1 step₁.grown.tree step₁.next 1 (suc n)
        va _ step₁.here step₁.room

  step₃ :
      Level step₂.labels step₂.space step₂.next 0 n va
        (index 2 va ∷ index 3 va ∷ [])
        (map_level step₂.next pmd_shift va step₂.space)
  step₃ =
      map_level-Level step₂.labels step₂.space.0 step₂.space.1 step₂.grown.tree step₂.next 0 n va _
        step₂.here step₂.room

  abbrev last : Space
  last = step₃.space

  abbrev pte : ℕ
  pte = step₃.next

  grown₂ : IsGrown step₁.labels step₁.space.1 step₃.labels last.1
  grown₂ = IsGrown-trans _ _ _ _ _ _ step₂.grown step₃.grown

  grown : IsGrown d.labels d.space.1 step₃.labels last.1
  grown = IsGrown-trans _ _ _ _ _ _ step₁.grown grown₂

  same : SameMap d.space.0 last.0
  same =
      let (a, b, c) = step₁.same in
      let (a', b', c') = step₂.same in
      let (a'', b'', c'') = step₃.same in (a'' ∙ a' ∙ a, b'' ∙ b' ∙ b, c'' ∙ c' ∙ c)

  abbrev recorded_map : MemoryMap
  recorded_map = record last.0 {
    userpages_count = last.0.userpages_count + 1;
    userpages =
        set last.0.userpages last.0.userpages_count
          (record { physical_adr = page; virtual_adr = va });
  }

  abbrev mapped_words : ℕ → ℕ
  mapped_words = store last.1.words (pte + 8 * index 0 va) (page + 0x447)

  abbrev mapped : Space
  mapped = (recorded_map, record last.1 { words = mapped_words })

  map_page-mapped : map_page va page s ≡ some mapped
  unfolding map_page
  map_page-mapped =
      rw
        (
          d.result,
          step₁.result,
          step₂.result,
          step₃.result,
          push_userpage-room (record { physical_adr = page; virtual_adr = va }) last.0
              (omega (arith, few, d.count, same.1)),
          map_table_entry_lem pte va page last.1 aligned,
        )
        refl

  -- An entry that leads from one table to the next is still there at the end.
  link_kept :
      (labels : Label) (p : Pages) (t e j n : ℕ) (q : List ℕ)
      → IsGrown labels p step₃.labels last.1
      → IsTable labels t (suc e) q
      → j < 512
      → p.words (t + 8 * j) ≡ n + 3
      → mapped_words (t + 8 * j) ≡ n + 3
  link_kept labels p t e j n q g h lt w =
      leaf-above step₃.labels last.1 step₃.grown.tree pte (index 0 va) (page + 0x447) _ step₃.here
        (omega arith) t e j q (g.table t (suc e) q h) lt
      ∙ g.entries t (suc e) j q h lt (λ z. omega (arith, w, z))
      ∙ w

  table-IsAligned : (t e : ℕ) (q : List ℕ) → IsTable step₃.labels t e q → IsAligned t
  table-IsAligned t e q h = IsInUse-IsAligned last.1 t (step₃.grown.tree.in_use t e q h)

  walk-mapped : walk mapped_words 3 dir va ≡ page + 0x447
  walk-mapped =
      walk-chain mapped_words dir step₁.next step₂.next pte va (page + 0x447)
        (table-IsAligned step₁.next 2 _ (grown₂.table _ _ _ step₁.here))
        (table-IsAligned step₂.next 1 _ (step₃.grown.table _ _ _ step₂.here))
        (table-IsAligned pte 0 _ step₃.here)
        (link_kept step₁.labels step₁.space.1 dir 2 (index 3 va) step₁.next [] grown₂
          (step₁.grown.table _ _ _ d.root) (omega arith) step₁.link)
        (link_kept step₂.labels step₂.space.1 step₁.next 1 (index 2 va) step₂.next _ step₃.grown
          (step₂.grown.table _ _ _ step₁.here) (omega arith) step₂.link)
        (link_kept step₃.labels last.1 step₂.next 0 (index 1 va) pte _
          (IsGrown-refl step₃.labels last.1 step₃.grown.tree) (step₃.grown.table _ _ _ step₂.here)
          (omega arith) step₃.link)
        (leaf_word step₃.labels last.1 step₃.grown.tree pte (index 0 va) (page + 0x447) _ step₃.here
          (omega arith))

  walk-others :
      (va' : ℕ)
      → va' / 4096 % 2 ^ 36 ≢ va / 4096 % 2 ^ 36
      → walk mapped_words 3 dir va' ≡ lookup s va'
  walk-others va' other =
      elim (walk-leaf step₃.labels last.1 step₃.grown.tree pte (index 0 va) (page + 0x447) _
        step₃.here (omega arith) 3 dir va' [] (grown.table _ _ _ d.root)) [
          | inl (e, e₀) ↦ absurd (other (same_route va' va e e₀))
          | inr kept ↦ kept ∙ grown.walks dir 3 va' [] d.root ∙ d.lookups va'
        ]

  -- The tables are a tree, and the page directory one of them.
  IsSpace-mapped : IsSpace step₃.labels mapped
  IsSpace-mapped = record {
    tree =
        IsTree-leaf step₃.labels last.1 step₃.grown.tree pte (index 0 va) (page + 0x447) _
          step₃.here (omega arith);
    root = λ ne. subst (λ t. IsTable step₃.labels t 3 []) (sym same.0) (grown.table _ _ _ d.root);
  }

  lookup-mapped : (va' : ℕ) → lookup mapped va' ≡ walk mapped_words 3 dir va'
  lookup-mapped va' =
      let positive : dir ≢ 0 =
        λ z. (let (m, e, below, u) = d.tree.in_use dir 3 [] d.root in omega (arith, e, z)) in
      let e : (last.0.pagedirectory == 0) ≡ false =
        ground (arith, same.0, positive, ==_iff last.0.pagedirectory 0) in
      rw e (ap (λ t. walk mapped_words 3 t va') same.0)

  map_page_lem : Mapped label va page n s (map_page va page s)
  map_page_lem = record {
    space = mapped;
    labels = step₃.labels;
    result = map_page-mapped;
    valid = IsSpace-mapped;
    found =
        ap (λ entry. physical entry va) (lookup-mapped va ∙ walk-mapped)
        ∙ ap (λ t. t + va % 4096) (target-entry page 0x447 aligned (omega arith));
    others = λ va' other. lookup-mapped va' ∙ walk-others va' other;
    kept = λ t h.
        let (h', w) = d.kept t h in
        let ((u, no_table), w') = grown.kept t h' in
        (
          (u, no_table),
          λ k lt.
              leaf_data step₃.labels last.1 step₃.grown.tree pte (index 0 va) (page + 0x447) _
                step₃.here (omega arith) t (u, no_table) k lt
              ∙ w' k lt
              ∙ w k lt,
        );
    room = record {
      entries = omega (arith, step₃.room.entries);
      pages = unfold free_pages in omega (arith, step₃.room.pages);
    };
    count = omega (arith, same.1, d.count);
    recorded = let pages = same.2 ∙ d.pages in let n = same.1 ∙ d.count in rw (pages, n) refl;
  }

-- On an address space whose tables are a tree, where the number of kernel pages, `n` and 4 add up to
-- less than 16 and there are less than 16 user pages, with `n` + 4 free pages: `map_page` maps an
-- aligned page. A walk of the tables then leads from the address to the page, for every address with other bits 12 to 47 it ends at the
-- entry that it ended at before, or at none as before, and the tables are a tree again. Every page in
-- use that is no table of the task keeps its words, `n` kernel pages are left in the list and in the
-- machine, and the page is recorded with its address.
pub map_page-Mapped :
    (va page n : ℕ) (label : Label) (s : Space)
    → IsAligned page
    → IsSpace label s
    → HasRoom (n + 4) s
    → s.0.userpages_count < max_process_pages
    → Mapped label va page n s (map_page va page s)
map_page-Mapped va page n label (mm, p) aligned v room few =
    map_page_lem label va page n (mm, p) aligned few
      (ensure_directory-Rooted label mm p (suc (suc (suc n))) v
        (record { entries = omega (arith, room.entries); pages = omega (arith, room.pages) }))
