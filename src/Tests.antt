-- ===== src/Tests.antt =====
-- Runs of the model on small inputs, and the theorems at inputs that meet their hypotheses.
mod Traces
mod Access
mod Links
mod Searches
mod Users
mod Contexts
mod Services
mod Ingest
mod Kept
mod Settings
mod Exports
mod Guarded
mod Indexes
mod Providers
