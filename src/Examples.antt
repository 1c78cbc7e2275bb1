-- ===== src/Examples.antt =====
-- Runs of the models at concrete inputs, at which the theorems apply.
mod Blobs
mod Protocol
mod Caches
mod State
mod Trees
mod Writing
