-- ===== src/Mm.antt =====
-- Memory management: src/mm.
pub mod Pages
pub mod Paging
