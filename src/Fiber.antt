-- ===== src/Fiber.antt =====
-- include/mycoroutine/fiber.h and src/fiber.cpp: the states of a fiber, and the fibers of a thread.
pub mod SharedStack
pub mod Prepare
pub mod Snapshot
pub mod Lending
pub mod EntryPoint
pub mod Transfer
pub mod Chain
pub mod Switch
pub mod Return
mod Examples

pub data State : Type 0 where
  ready running term : State
