-- ===== src/Tests.antt =====
-- Small documents, what the code does on them, and each property at such a document.
mod Samples
mod Plans
mod Deliveries
mod Merges
mod Projecting
mod Ledgers
mod Sessions
mod Ranges
mod Forging
