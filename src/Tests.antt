-- ===== src/Tests.antt =====
-- Concrete runs, and the theorems at concrete inputs.
mod Instances
mod Formats
mod Parts
mod Runs
mod Stores
mod Caches
mod Searches
mod Graphs
mod Files
