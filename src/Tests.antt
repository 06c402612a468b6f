-- ===== src/Tests.antt =====
-- The theorems at concrete inputs, a module per group of them.
pub mod Data
mod Base
mod Lists
mod Flush
mod Logs
mod Net
mod Tables
mod Rings
mod Links
mod Indexes
mod Heaps
mod Filters
mod Streams
