-- ===== src/Tests.antt =====
-- The theorems at concrete inputs.
mod Kernels
mod Descriptors
mod Network
mod Scheduling
mod Ownership
mod Custody
mod Children
mod Handles
mod Exceptions
mod Jthreads
