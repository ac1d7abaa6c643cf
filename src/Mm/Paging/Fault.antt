-- ===== src/Mm/Paging/Fault.antt =====
-- `do_mem_abort` (src/mm/paging.c): a translation fault gets a fresh page where it happened.
use pell_os.Base.{
  ℕ, ◌+◌, ◌*◌, ◌/◌, ◌%◌, ◌^◌, ◌<◌, ◌≡◌, ◌≢◌, refl, ap, sym, ◌∙◌, arith, ◌==◌, ==_iff, Bool, true,
  false, Option, some, bit_and, if◌then◌else◌,
}
use pell_os.Base.Masks.{bit_and-high}
use pell_os.Mm.Pages.{Pages, get_next_free_page}
use pell_os.Mm.Pages.Scan.{used}
use pell_os.Mm.Pages.Alloc.{page_address}
use pell_os.Mm.Paging.{MemoryMap, Space, map_page, do_mem_abort, max_process_pages, page_mask}
use pell_os.Mm.Paging.Walk.{index, walk, physical}
use pell_os.Mm.Paging.Tree.{Label}
use pell_os.Mm.Paging.Grow.{HasRoom}
use pell_os.Mm.Paging.Directory.{lookup, IsSpace}
use pell_os.Mm.Paging.Fresh.{Fresh, map_page-Fresh, page_there}

page_of : (addr : ℕ) → addr < 2 ^ 64 → bit_and addr page_mask ≡ addr / 4096 * 4096
page_of addr lt =
    let e : addr ≡ addr / 4096 * 2 ^ 12 + addr % 4096 = omega arith in
    ap (λ y. bit_and y page_mask) e
    ∙ bit_and-high 12 52 (addr / 4096) (addr % 4096) (omega arith) (omega arith)

-- A walk depends on the page of the address.
walk-same_page :
    (w : ℕ → ℕ) (t va va' : ℕ) → va / 4096 ≡ va' / 4096 → walk w 3 t va ≡ walk w 3 t va'
unfolding walk
walk-same_page w t va va' e =
    let e₃ : index 3 va ≡ index 3 va' = omega (arith, e) in
    let e₂ : index 2 va ≡ index 2 va' = omega (arith, e) in
    let e₁ : index 1 va ≡ index 1 va' = omega (arith, e) in
    let e₀ : index 0 va ≡ index 0 va' = omega (arith, e) in rw (e₃, e₂, e₁, e₀) refl

lookup-same_page : (s : Space) (va va' : ℕ) → va / 4096 ≡ va' / 4096 → lookup s va ≡ lookup s va'
lookup-same_page (mm, p) va va' e =
    ap (λ entry. if mm.pagedirectory == 0 then 0 else entry)
      (walk-same_page p.words mm.pagedirectory va va' e)

-- The page at `addr` is a page of zeros that was free, and every other address is translated as before.
pub record Resolved (addr : ℕ) (s : Space) (r : Option (Bool × Space)) : Type 0 where
  pub space : Space
  pub labels : Label
  pub number : ℕ
  pub result : r ≡ some (true, space)
  pub valid : IsSpace labels space
  pub free_before : used s.1.page_bitmap number ≡ 0
  pub found : physical (lookup space addr) addr ≡ page_address number + addr % 4096
  pub zeros : (k : ℕ) → k < 512 → space.1.words (page_address number + 8 * k) ≡ 0
  pub others : (va : ℕ) → va / 4096 % 2 ^ 36 ≢ addr / 4096 % 2 ^ 36 → lookup space va ≡ lookup s va

module _ (addr esr : ℕ) (small : addr < 2 ^ 64) (label : Label) (mm : MemoryMap) (p : Pages)
    (fault : bit_and (bit_and esr 63) 60 ≡ 4) (v : IsSpace label (mm, p)) (room : HasRoom 5 (mm, p))
    (few : mm.userpages_count < max_process_pages) where
  abbrev page : ℕ
  page = (get_next_free_page p).0

  abbrev start : ℕ
  start = addr / 4096 * 4096

  fresh : Fresh label start 0 (mm, p) page (map_page start page (mm, (get_next_free_page p).1))
  fresh = map_page-Fresh start 0 label mm p v room few

  do_mem_abort-map_page : do_mem_abort addr esr (mm, p) ≡ some (true, fresh.space)
  unfolding do_mem_abort
  do_mem_abort-map_page =
      let there = page_there start 0 label mm p v room few in
      let some_page : (page == 0) ≡ false = ground (arith, there, ==_iff page 0) in
      rw (fault, some_page, page_of addr small, fresh.result) refl

  do_mem_abort_lem : Resolved addr (mm, p) (do_mem_abort addr esr (mm, p))
  do_mem_abort_lem = record {
    space = fresh.space;
    labels = fresh.labels;
    number = fresh.number;
    result = do_mem_abort-map_page;
    valid = fresh.valid;
    free_before = fresh.free_before;
    found =
        ap (λ entry. physical entry addr) (lookup-same_page fresh.space addr start (omega arith))
        ∙ omega (arith, fresh.found, fresh.address);
    zeros =
        λ k lt. ap (λ t. fresh.space.1.words (t + 8 * k)) (sym fresh.address) ∙ fresh.zeros k lt;
    others = λ va other. fresh.others va (λ e. other (omega (arith, e)));
  }

-- A translation fault (bits 2 to 5 of the fault status are 0001), in an address space whose tables
-- are a tree, with at most ten kernel pages and fifteen user pages in its lists of sixteen, and five
-- free pages: `do_mem_abort` returns 0. A page that was free, of zeros, is then found at the faulting
-- address, with the tables a tree again; for every address with other bits 12 to 47 the walk ends
-- where it did.
pub do_mem_abort-Resolved :
    (addr esr : ℕ) (label : Label) (s : Space)
    → addr < 2 ^ 64
    → bit_and (bit_and esr 63) 60 ≡ 4
    → IsSpace label s
    → HasRoom 5 s
    → s.0.userpages_count < max_process_pages
    → Resolved addr s (do_mem_abort addr esr s)
do_mem_abort-Resolved addr esr label (mm, p) small fault v room few =
    do_mem_abort_lem addr esr small label mm p fault v room few
