-- ===== src/Mm/Paging/Copy.antt =====
-- `copy_virtual_memory` (src/mm/paging.c): the child's address space holds copies of the parent's
-- pages.
use pell_os.Base.{ℕ, ◌+◌, ◌*◌, ◌<◌, ◌≤◌, refl, arith, List, [], ◌∷◌, length, take}
use pell_os.Mm.Pages.{Pages}
use pell_os.Mm.Pages.Count.{free_pages}
use pell_os.Mm.Paging.{
  MemoryMap, UserPage, Space, copy_loop, copy_virtual_memory, max_process_pages,
}
use pell_os.Mm.Paging.Tree.{Label}
use pell_os.Mm.Paging.Grow.{HasRoom}
use pell_os.Mm.Paging.Directory.{IsSpace}
use pell_os.Mm.Paging.CopyRound.{
  processor, IsDistinct, IsParent, Copied, f, p₂, parent₂, valid₂, copied-round,
}

copy_loop-Copied :
    (parent child : Label) (dir : ℕ) (us : List UserPage) (mm : MemoryMap) (p : Pages)
    → IsParent parent child dir us p
    → IsSpace child (mm, p)
    → HasRoom (length us * 5) (mm, p)
    → mm.userpages_count + length us ≤ max_process_pages
    → IsDistinct us
    → Copied child dir us (mm, p) (copy_loop processor dir us (mm, p))
unfolding copy_loop
copy_loop-Copied parent child dir [] mm p h v room few differ = record {
  space = (mm, p);
  labels = child;
  result = refl;
  valid = v;
  copies = tt;
  others = λ va all. refl;
  kept = λ t d. (d, λ k lt. refl);
}
copy_loop-Copied parent child dir (u ∷ us) mm p h v room few differ =
    let n = length us * 5 in
    let room₁ : HasRoom (n + 5) (mm, p) = record {
      entries = omega (arith, room.entries);
      pages = omega (arith, room.pages);
    } in
    let few₁ : mm.userpages_count < max_process_pages = omega (arith, few) in
    let r = f parent child dir u us mm p n h v room₁ few₁ in
    let p' = p₂ parent child dir u us mm p n h v room₁ few₁ in
    copied-round parent child dir u us mm p n h v room₁ few₁ differ (
      copy_loop-Copied parent r.labels dir us r.space.0 p'
        (parent₂ parent child dir u us mm p n h v room₁ few₁)
        (valid₂ parent child dir u us mm p n h v room₁ few₁)
        (record { entries = r.room.entries; pages = unfold free_pages in r.room.pages })
        (omega (arith, few, r.count)) differ.1)

-- A fork's copy of an address space, where the processor walks the parent's tables, each user page of
-- the parent is a page in use, no two have the same page number, the child's tables are a tree, there
-- are five free pages for each of them, the number of the child's kernel pages and five for each of
-- them add up to less than 16, and the child's user pages and theirs to at most 16:
-- `copy_virtual_memory` returns 0. For every page of the parent the
-- child's tables then lead to a page of its own that holds the same words, all its other addresses
-- are translated as before, and every page in use that was no table of the child is kept.
pub copy_virtual_memory-Copied :
    (parent child : Label) (src : MemoryMap) (s : Space)
    → IsParent parent child src.pagedirectory (take src.userpages_count src.userpages) s.1
    → IsSpace child s
    → HasRoom (length (take src.userpages_count src.userpages) * 5) s
    → s.0.userpages_count + length (take src.userpages_count src.userpages) ≤ max_process_pages
    → IsDistinct (take src.userpages_count src.userpages)
    → Copied child src.pagedirectory
        (take src.userpages_count src.userpages)
        s
        (copy_virtual_memory processor src s)
unfolding copy_virtual_memory
copy_virtual_memory-Copied parent child src (mm, p) h v room few differ =
    copy_loop-Copied parent child src.pagedirectory (take src.userpages_count src.userpages) mm p h
      v room few differ
