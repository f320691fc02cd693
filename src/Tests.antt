-- ===== src/Tests.antt =====
-- Runs of the model on small inputs, and the theorems at inputs that meet their hypotheses.
pub mod Demo
mod Sockets
mod Ticks
mod Actions
mod Tables
mod AtEnd
mod Drain
mod Raised
mod Parameters
mod Promises
mod Refused
mod Reached
mod Working
