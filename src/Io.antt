-- ===== src/Io.antt =====
-- include/metasys/io: reading, writing and pipes.
pub mod Retry
pub mod ReadableDescriptor
pub mod WritableDescriptor
pub mod Streams
pub mod Pipe
