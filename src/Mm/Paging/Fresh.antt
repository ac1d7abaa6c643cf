-- ===== src/Mm/Paging/Fresh.antt =====
-- A page from the allocator, mapped at an address, as `allocate_user_page` and `do_mem_abort` of
-- src/mm/paging.c do.
use pell_os.Base.{
  ℕ, ◌+◌, ◌*◌, ◌/◌, ◌%◌, ◌^◌, ◌<◌, ◌≡◌, ◌≢◌, refl, ◌∙◌, arith, ◌==◌, ==_iff, Option, some, false,
}
use pell_os.Mm.Pages.{Pages, get_next_free_page}
use pell_os.Mm.Pages.Scan.{used}
use pell_os.Mm.Pages.Alloc.{IsValid, Allocated, page_address}
use pell_os.Mm.Pages.Count.{free_pages, get_next_free_page-counts}
use pell_os.Mm.Paging.{
  MemoryMap, Space, map_page, max_process_pages, allocate_user_page, virtual_address_start,
}
use pell_os.Mm.Paging.Walk.{physical}
use pell_os.Mm.Paging.Tree.{
  Label, IsData, SameWords, IsTree-Allocated, IsInUse-IsAligned, new_in_use, not_table, kept_in_use,
  kept_word,
}
use pell_os.Mm.Paging.Grow.{HasRoom}
use pell_os.Mm.Paging.Directory.{lookup_kept, lookup, IsSpace}
use pell_os.Mm.Paging.Map.{Mapped, map_page-Mapped}

-- A page that was free is mapped at `va`, and holds zeros; other addresses are translated as before,
-- and the pages in use that are no tables of the task are kept.
pub record Fresh (label : Label) (va n : ℕ) (s : Space) (page : ℕ) (r : Option Space) : Type 0 where
  pub space : Space
  pub labels : Label
  pub number : ℕ
  pub result : r ≡ some space
  pub valid : IsSpace labels space
  pub address : page ≡ page_address number
  pub free_before : used s.1.page_bitmap number ≡ 0
  pub found : physical (lookup space va) va ≡ page + va % 4096
  pub others :
      (va' : ℕ) → va' / 4096 % 2 ^ 36 ≢ va / 4096 % 2 ^ 36 → lookup space va' ≡ lookup s va'
  pub kept :
      (t : ℕ) → IsData label s.1 t → IsData labels space.1 t × SameWords s.1.words space.1.words t
  pub is_data : IsData labels space.1 page
  pub zeros : (k : ℕ) → k < 512 → space.1.words (page + 8 * k) ≡ 0
  pub room : HasRoom n space
  pub count : space.0.userpages_count ≡ s.0.userpages_count + 1

module _ (va n : ℕ) (label : Label) (mm : MemoryMap) (p : Pages) (v : IsSpace label (mm, p))
    (room : HasRoom (n + 5) (mm, p)) (few : mm.userpages_count < max_process_pages) where
  abbrev page : ℕ
  page = (get_next_free_page p).0

  abbrev p' : Pages
  p' = (get_next_free_page p).1

  fresh-Allocated :
      (m : ℕ)
      → Allocated p page p' m
      → IsValid p'
      → free_pages p ≡ free_pages p' + 1
      → Fresh label va n (mm, p) page (map_page va page (mm, p'))
  fresh-Allocated m a valid count = record {
    space = r.space;
    labels = r.labels;
    number = m;
    result = r.result;
    valid = r.valid;
    address = a.address;
    free_before = a.free_before;
    found = r.found;
    others = λ va' other. r.others va' other ∙ before va';
    kept = λ t (u, no_table).
        let (h, w) = r.kept t (kept_in_use p page p' m a t u, no_table) in
        (h, λ k lt. w k lt ∙ kept_word p page p' m a t k u lt);
    is_data = (r.kept page new).0;
    zeros = λ k lt. (r.kept page new).1 k lt ∙ a.zeroed k lt;
    room = r.room;
    count = r.count;
  }
    where
      new : IsData label p' page
      new = (new_in_use p page p' m a v.tree.valid, not_table p page p' m a label v.tree)

      r : Mapped label va page n (mm, p') (map_page va page (mm, p'))
      r =
          map_page-Mapped va page n label (mm, p') (IsInUse-IsAligned p' page new.0)
            (record { tree = IsTree-Allocated p page p' m a label v.tree valid; root = v.root })
            (record {
              entries = omega (arith, room.entries);
              pages = omega (arith, room.pages, count);
            })
            few

      before : (va : ℕ) → lookup (mm, p') va ≡ lookup (mm, p) va
      before =
          lookup_kept label mm p p' v
            (λ s e q j h. kept_word p page p' m a s j (v.tree.in_use s e q h))

  pub map_page-Fresh : Fresh label va n (mm, p) page (map_page va page (mm, p'))
  map_page-Fresh =
      let (m, a, valid, count) =
        get_next_free_page-counts p v.tree.valid (omega (arith, room.pages)) in
      fresh-Allocated m a valid count

  pub page_there : page ≢ 0
  page_there z = let f = map_page-Fresh in omega (arith, f.address, z)

  -- `allocate_user_page` returns the page's kernel address.
  pub allocate_user_page_lem :
      allocate_user_page va (mm, p) ≡ some (page + virtual_address_start, map_page-Fresh.space)
  unfolding allocate_user_page
  allocate_user_page_lem =
      let e : (page == 0) ≡ false = ground (arith, page_there, ==_iff page 0) in
      rw (e, map_page-Fresh.result) refl
