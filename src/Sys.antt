-- ===== src/Sys.antt =====
-- include/metasys/sys and sys/: descriptors that wrap a file descriptor, and system exceptions.
pub mod SystemException
pub mod Exceptions
pub mod FileDescriptor
pub mod ClosingDescriptor
pub mod Safety
