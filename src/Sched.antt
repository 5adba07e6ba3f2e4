-- ===== src/Sched.antt =====
-- include/metasys/sched: threads, processes, mutexes and epoll.
pub mod PthreadBehavior
pub mod Pthread
pub mod Thread
pub mod ThisPthread
pub mod PthreadMutex
pub mod Process
pub mod EpollEvent
pub mod EpollDescriptor
