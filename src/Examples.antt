-- ===== src/Examples.antt =====
-- The dependencies of the services as small programs in memory, and runs of the code over them.
pub mod Memory
pub mod Laws
pub mod Requests
pub mod Rig
pub mod Computing
pub mod Faults
mod Alone
mod Runs
mod Inputs
pub mod LoadTest
mod Served
mod Programs
mod Storage
mod Access
mod Concurrent
