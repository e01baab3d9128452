-- ===== src/Examples.antt =====
-- Concrete runs of the modelled code, to which the theorems are applied.
pub mod Strings
pub mod Vectors
pub mod Queues
pub mod Containers
pub mod Daemon
pub mod Maps
pub mod Json
pub mod Web
pub mod Processes
pub mod Tools
