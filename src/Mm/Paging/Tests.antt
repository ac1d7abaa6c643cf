-- ===== src/Mm/Paging/Tests.antt =====
-- The page tables (src/mm/paging.c) of a small machine.
use pell_os.Base.{refl, arith, none, ◌∷◌, replicate}
use pell_os.Mm.Pages.Count.{free_pages}
use pell_os.Mm.Paging.{Space, map_page, do_mem_abort}
use pell_os.Mm.Paging.Tree.{Label}
use pell_os.Mm.Paging.Grow.{HasRoom}
use pell_os.Mm.Paging.Directory.{IsSpace}
use pell_os.Mm.Paging.Map.{Mapped, map_page-Mapped}
use pell_os.Mm.Paging.Fault.{Resolved, do_mem_abort-Resolved}

-- A task that has no page directory yet, and a machine of eight pages, of which one is handed out.
abbrev new_space : Space
new_space = (
  record {
    pagedirectory = 0;
    userpages_count = 0;
    userpages = replicate 16 (record { physical_adr = 0; virtual_adr = 0 });
    kernelpages_count = 0;
    kernelpages = replicate 16 0;
  },
  record { page_bitmap = 1 ∷ replicate 7 0; words = λ a. 5 },
)

abbrev no_tables : Label
no_tables t = none

new_space-IsSpace : IsSpace no_tables new_space
new_space-IsSpace = record {
  tree = record {
    valid = omega arith;
    in_use = λ t d path h. absurd (cc h);
    entry = λ t d path i h lt. absurd (cc h);
  };
  root = λ ne. absurd (ne refl);
}

new_space-HasRoom : HasRoom 5 new_space
unfolding free_pages
new_space-HasRoom = record { entries = omega arith; pages = omega arith }

map_page-Mapped_example :
    Mapped no_tables 0x7F_1234_5678 0x40_0000 1 new_space
      (map_page 0x7F_1234_5678 0x40_0000 new_space)
map_page-Mapped_example =
    map_page-Mapped 0x7F_1234_5678 0x40_0000 1 no_tables new_space (omega arith) new_space-IsSpace
      (record { entries = omega arith; pages = omega (arith, new_space-HasRoom.pages) })
      (omega arith)

do_mem_abort-Resolved_example :
    Resolved 0x8000_1234 new_space (do_mem_abort 0x8000_1234 0x9200_0006 new_space)
do_mem_abort-Resolved_example =
    do_mem_abort-Resolved 0x8000_1234 0x9200_0006 no_tables new_space (omega arith) refl
      new_space-IsSpace new_space-HasRoom (omega arith)
