-- ===== src/Tests.antt =====
-- The theorems at concrete inputs.
mod Scanning
mod Storage
mod Passes
mod Library
mod Analysis
mod Parsing
mod Generating
