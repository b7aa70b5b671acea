-- ===== src/Tests.antt =====
-- Runs of the theorems at concrete inputs.
mod Ingestion
mod Endpoint
mod Parser
mod Tasks
mod Names
mod Settings
mod Migration
mod RoundTrip
mod Routing
mod Shutdown
mod Wiring
mod Storage
mod Documents
mod Outage
mod Lookup
mod Redelivery
mod ApiRole
