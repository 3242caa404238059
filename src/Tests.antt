-- ===== src/Tests.antt =====
-- The properties at concrete inputs, most of them those of the unit tests of the repository.
mod Sample
mod Links
mod Fetches
mod Tasks
mod Crawls
mod Deliveries
mod Exhausts
mod Rates
mod Processes
mod Depths
mod Leaks
mod Callbacks
