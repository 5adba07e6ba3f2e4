-- ===== src/Ownership/Library.antt =====
-- Each operation of the closing descriptors keeps `IsOwned`, however it ends.
pub mod Closing
pub mod Opening
pub mod Servers
pub mod Handlers
pub mod Pipes
