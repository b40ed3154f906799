-- ===== src/Examples.antt =====
-- Runs of the model on small inputs, and the theorems at concrete inputs, by component.
mod Data
mod Compare
mod Sorting
mod Caches
mod CacheSorts
mod Jobs
mod Quicksorts
mod Radixsorts
mod Checks
mod Keys
mod Tools
