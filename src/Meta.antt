-- ===== src/Meta.antt =====
-- include/metasys/meta: wrappers that the compiler chooses between.
pub mod StaticOptional
pub mod AutoHolder
