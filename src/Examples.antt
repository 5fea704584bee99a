-- ===== src/Examples.antt =====
-- The theorems about the store, the refreshes, the controller and the reports, and about the
-- gateway, at concrete inputs.
mod Jobs
mod Live
mod Values
mod Tools
mod Sessions
mod Socket
mod Reads
mod Calls
