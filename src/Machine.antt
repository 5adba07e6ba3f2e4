-- ===== src/Machine.antt =====
-- What the wrappers run on: memory cells, `errno`, the history of library calls, and the outcomes
-- of a C++ function. The operating system is a parameter, the `Kernel`.
mod Calls
mod State
mod Errno
mod Asserts
pub use Calls.*
pub use State.*
pub use Errno.*
pub use Asserts.*
