-- ===== src/Tests.antt =====
-- The theorems at concrete inputs.
mod Wire
mod Sweeps
mod Lookups
mod Master
mod Streams
mod Running
mod Sizes
mod Startup
mod Edits
mod Queries
mod Remembering
mod Signing
mod Serving
mod SignedSets
mod Validating
mod Hashes
mod Networks
