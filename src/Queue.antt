-- ===== src/Queue.antt =====
-- QueueFeeder.cc and QueueFeeder.h: the queue of commands, a doubly linked list of jobs.
-- The store gives each address the fields of a `QueueJob`; 0 is the null pointer. `top` is the
-- first address that `new` has not given: the loops that follow `next` take it as their fuel.
-- A text that the null pointer could stand for is never null here: the constructor and `QueueCmd`
-- set them all. `fnmatch` with `FNM_CASEFOLD` is the parameter `matches`.
pub mod Store
pub mod Linked
pub mod Unlink
pub mod Insert
pub mod Insertion
pub mod Format
pub mod Jobs
pub mod Represent
pub mod Refine
pub mod Remove
pub mod Move
pub mod Moves
pub mod Deleting
pub mod Requeue
mod Tests
pub mod Matching
