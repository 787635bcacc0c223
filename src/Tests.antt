-- ===== src/Tests.antt =====
-- A platform with natural numbers for floats and times, and runs of the definitions on it.
mod World
mod Filters
mod Keys
mod Sorted
mod Buckets
mod Writes
mod Owned
mod Hits
mod Aggregated
mod Configured
mod Crawled
mod Built
mod Served
mod Delivered
mod Stored
mod Metered
mod Parsed
mod Handled
