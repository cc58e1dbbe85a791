-- ===== src/Tests.antt =====
-- Sample data, and the theorems at it.
mod Samples
mod Requests
mod Sessions
mod Filters
mod Fixes
mod Searches
mod Groups
mod Encoding
mod Digits
mod Openings
mod Plugins
