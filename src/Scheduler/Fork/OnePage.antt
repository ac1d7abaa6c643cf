-- ===== src/Scheduler/Fork/OnePage.antt =====
-- Test data for the fork of a user task (src/scheduler/scheduler.c): a task with one page at
-- 0x40_0000, on a machine of sixteen pages.
use pell_os.Base.{
  ℕ, List, ◌++◌, ◌≡◌, ◌≢◌, refl, sym, ap, ◌∙◌, arith, ◌==◌, [], ◌∷◌, replicate, false,
}
use mathlib.Core.Path.{subst}
use pell_os.Mm.Pages.{Pages, get_next_free_page}
use pell_os.Mm.Pages.Alloc.{IsValid}
use pell_os.Mm.Pages.Count.{free_pages}
use pell_os.Mm.Paging.{MemoryMap, UserPage, map_page}
use pell_os.Mm.Paging.Walk.{walk, physical}
use pell_os.Mm.Paging.Tree.{IsData}
use pell_os.Mm.Paging.Grow.{HasRoom}
use pell_os.Mm.Paging.Directory.{lookup}
use pell_os.Mm.Paging.Fresh.{Fresh, map_page-Fresh}
use pell_os.Mm.Paging.CopyRound.{processor, IsParent}
use pell_os.Kernel.{zero_task}
use pell_os.Scheduler.Fork.Parent.{no_tables, IsData-no_tables, empty-IsSpace}

abbrev sixteen_pages : Pages
sixteen_pages = record { page_bitmap = replicate 16 0; words = λ a. 7 }

abbrev pub va : ℕ
va = 0x40_0000

sixteen_pages-IsValid : IsValid sixteen_pages
sixteen_pages-IsValid = omega arith

abbrev page : ℕ
page = (get_next_free_page sixteen_pages).0

room : HasRoom 15 (zero_task.mm, sixteen_pages)
unfolding free_pages
room = record { entries = omega arith; pages = omega arith }

-- The page is mapped.
pub mapped :
    Fresh no_tables va 10
      (zero_task.mm, sixteen_pages)
      page
      (map_page va page (zero_task.mm, (get_next_free_page sixteen_pages).1))
mapped =
    map_page-Fresh va 10 no_tables zero_task.mm sixteen_pages
      (empty-IsSpace sixteen_pages sixteen_pages-IsValid) room (omega arith)

abbrev pub user_pages : List UserPage
user_pages = record { physical_adr = 0; virtual_adr = va } ∷ []

abbrev pub one_page_map : MemoryMap
one_page_map = record mapped.space.0 {
  userpages_count = 1;
  userpages = user_pages ++ replicate 15 (record { physical_adr = 0; virtual_adr = 0 });
}

lookup-there :
    (mm : MemoryMap) (p : Pages) (a : ℕ)
    → mm.pagedirectory ≢ 0
    → lookup (mm, p) a ≡ walk p.words 3 mm.pagedirectory a
lookup-there mm p a ne = let e : (mm.pagedirectory == 0) ≡ false = ground (arith, ne) in rw e refl

lookup-none : (mm : MemoryMap) (p : Pages) (a : ℕ) → mm.pagedirectory ≡ 0 → lookup (mm, p) a ≡ 0
lookup-none mm p a z = rw z refl

directory_there : one_page_map.pagedirectory ≢ 0
directory_there z =
    let f = mapped.found in
    let e = ap (λ entry. physical entry va) (lookup-none mapped.space.0 mapped.space.1 va z) in
    omega (arith, sym e ∙ f, mapped.address)

processor_page : processor mapped.space.1.words one_page_map.pagedirectory va ≡ page
processor_page =
    let e =
      ap (λ entry. physical entry va)
        (lookup-there mapped.space.0 mapped.space.1 va directory_there) in
    sym e ∙ mapped.found ∙ omega arith

pub one_page_map-IsParent :
    IsParent mapped.labels no_tables one_page_map.pagedirectory user_pages mapped.space.1
one_page_map-IsParent = record {
  tree = mapped.valid.tree;
  root = mapped.valid.root directory_there;
  apart = λ t d path h d' path' h'. absurd (cc h');
  sources = (
    subst (IsData no_tables mapped.space.1) (sym processor_page)
        (IsData-no_tables mapped.space.1 page mapped.is_data.0),
    tt,
  );
}
