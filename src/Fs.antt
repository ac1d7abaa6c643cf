-- ===== src/Fs.antt =====
-- The file system (src/fs).
pub mod Fd
pub mod Rdfs
pub mod Vfs
