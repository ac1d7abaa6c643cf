-- ===== src/Mm/Paging/Directory.antt =====
-- The first part of `map_page` (src/mm/paging.c): the page directory of an address space.
use pell_os.Base.{
  List, ◌<◌, ◌*◌, ℕ, suc, ◌+◌, ◌≡◌, ◌≢◌, inl, inr, refl, arith, ◌==◌, ==_iff, if◌then◌else◌,
  Bool-cases, true, false, Option, some, [], set,
}
use pell_os.Mm.Pages.{Pages, get_next_free_page}
use pell_os.Mm.Pages.Alloc.{IsValid, Allocated}
use pell_os.Mm.Pages.Count.{free_pages, get_next_free_page-counts}
use pell_os.Mm.Paging.{MemoryMap, Space, ensure_directory}
use pell_os.Mm.Paging.Walk.{walk, walk-zeros}
use pell_os.Mm.Paging.NewTable.{IsData-extend, extend, extend_self, IsTree-root}
use pell_os.Mm.Paging.Tree.{
  walk_kept, kept_in_use, kept_word, not_new, IsData, SameWords, Label, IsTable, IsTree,
  IsTree-Allocated, new_in_use, not_table,
}
use pell_os.Mm.Paging.Grow.{HasRoom}
use pell_os.Mm.Paging.Level.{push_kernelpage-room}

-- The entry for an address in a task's address space, or 0.
abbrev pub lookup : Space → ℕ → ℕ
lookup (mm, p) va =
    let entry = walk p.words 3 mm.pagedirectory va in if mm.pagedirectory == 0 then 0 else entry

-- The task's tables are a tree, with its page directory, if it has one, as a root.
pub record IsSpace (label : Label) (s : Space) : Type 0 where
  pub tree : IsTree label s.1
  pub root : s.0.pagedirectory ≢ 0 → IsTable label s.0.pagedirectory 3 []

-- Words that are the same in the tables: every address is translated as before.
pub lookup_kept :
    (label : Label) (mm : MemoryMap) (p p' : Pages)
    → IsSpace label (mm, p)
    → ((s e : ℕ) (q : List ℕ) (j : ℕ)
        → IsTable label s e q
        → j < 512
        → p'.words (s + 8 * j) ≡ p.words (s + 8 * j))
    → (va : ℕ) → lookup (mm, p') va ≡ lookup (mm, p) va
lookup_kept label mm p p' v same va = elim (Bool-cases (mm.pagedirectory == 0)) [
  | inl e ↦ rw e refl
  | inr e ↦ rw e (
      walk_kept label p v.tree p'.words same 3 mm.pagedirectory va []
        (v.root (λ z. ground (arith, ==_iff mm.pagedirectory 0))))
]

-- The address space with its page directory.
pub record Rooted (label : Label) (n : ℕ) (s : Space) (r : Option Space) : Type 0 where
  pub space : Space
  pub labels : Label
  pub result : r ≡ some space
  pub tree : IsTree labels space.1
  pub root : IsTable labels space.0.pagedirectory 3 []
  pub lookups : (va : ℕ) → walk space.1.words 3 space.0.pagedirectory va ≡ lookup s va
  pub room : HasRoom n space
  pub kept :
      (t : ℕ) → IsData label s.1 t → IsData labels space.1 t × SameWords s.1.words space.1.words t
  pub count : space.0.userpages_count ≡ s.0.userpages_count
  pub pages : space.0.userpages ≡ s.0.userpages

module _ (label : Label) (mm : MemoryMap) (p : Pages) (n : ℕ) (v : IsSpace label (mm, p))
    (room : HasRoom (suc n) (mm, p)) where
  directory-old : mm.pagedirectory ≢ 0 → Rooted label n (mm, p) (ensure_directory (mm, p))
  directory-old there =
      let e : (mm.pagedirectory == 0) ≡ false = ground (arith, ==_iff mm.pagedirectory 0) in
      record {
        space = (mm, p);
        labels = label;
        result = unfold ensure_directory in rw e refl;
        tree = v.tree;
        root = v.root there;
        lookups = λ va. rw e refl;
        kept = λ t h. (h, λ k lt. refl);
        room = record { entries = omega (arith, room.entries); pages = omega (arith, room.pages) };
        count = refl;
        pages = refl;
      }

  directory-new :
      (m : ℕ)
      → mm.pagedirectory ≡ 0
      → Allocated p (get_next_free_page p).0 (get_next_free_page p).1 m
      → IsValid (get_next_free_page p).1
      → free_pages p ≡ free_pages (get_next_free_page p).1 + 1
      → Rooted label n (mm, p) (ensure_directory (mm, p))
  directory-new m none_yet a valid count =
      let (page, p') = get_next_free_page p in
      let e : (mm.pagedirectory == 0) ≡ true = (==_iff mm.pagedirectory 0).1 none_yet in
      let fresh = not_table p page p' m a label v.tree in
      let used_page = new_in_use p page p' m a v.tree.valid in
      record {
        space = (
          record mm {
            pagedirectory = page;
            kernelpages_count = mm.kernelpages_count + 1;
            kernelpages = set mm.kernelpages (mm.kernelpages_count + 1) page;
          },
          p',
        );
        labels = extend label page 3 [];
        result =
            unfold ensure_directory in
            rw
              (
                e,
                push_kernelpage-room page (record mm { pagedirectory = page })
                    (omega (arith, room.entries)),
              )
              refl;
        tree =
            IsTree-root label page 3 [] fresh p' (IsTree-Allocated p page p' m a label v.tree valid)
              used_page a.zeroed;
        root = extend_self label page 3 [] fresh;
        lookups = λ va. rw e (walk-zeros p'.words 3 page va a.zeroed);
        kept = λ t (u, no_table). (
          IsData-extend label page 3 [] fresh p' t (kept_in_use p page p' m a t u, no_table)
              (not_new p page p' m a t u),
          λ k lt. kept_word p page p' m a t k u lt,
        );
        room = record {
          entries = omega (arith, room.entries);
          pages = omega (arith, room.pages, count);
        };
        count = refl;
        pages = refl;
      }

  pub ensure_directory-Rooted : Rooted label n (mm, p) (ensure_directory (mm, p))
  ensure_directory-Rooted = elim (Bool-cases (mm.pagedirectory == 0)) [
    | inl e ↦
        (let (m, a, valid, count) =
            get_next_free_page-counts p v.tree.valid (omega (arith, room.pages)) in
          directory-new m ((==_iff mm.pagedirectory 0).0 e) a valid count)
    | inr e ↦ directory-old (λ z. ground (arith, ==_iff mm.pagedirectory 0))
  ]
