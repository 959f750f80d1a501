-- ===== src/Controller.antt =====
-- The package controller/.
pub mod Doors
pub mod Router
pub mod Dispatch
pub mod Reads
