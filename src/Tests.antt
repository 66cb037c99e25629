-- ===== src/Tests.antt =====
-- The theorems at concrete inputs.
mod World
mod Collect
mod Plain
mod Runs
mod Versions
mod Transactions
mod Start
mod Sessions
mod Entries
mod Store
mod Requests
mod Rings
mod Conflicts
mod Commits
mod Reads
mod Keys
mod Interleavings
mod Simulations
