-- ===== src/Fs.antt =====
-- include/metasys/fs and fs/.
pub mod Directory
pub mod Stat
