-- ===== src/Tests.antt =====
-- Runs of the definitions on small inputs, and the theorems at inputs that meet their hypotheses.
mod Sets
mod Orders
mod Indexes
mod Spaces
mod Runs
mod Dates
mod Events
mod Threads
mod Codes
mod Texts
mod Caches
mod Ranges
mod Urls
mod Requests
mod Sites
