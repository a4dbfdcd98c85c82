-- ===== src/AgentRegistry.antt =====
-- The registry of agents with its token broker: domain/agentregistry, application/agentregistry, and
-- agentregistry_repository.go and a2akey_repository.go of adapter/out/db.
pub mod Model
pub mod Column
pub mod Tables
pub mod Service
pub mod Broker
pub mod Validation
pub mod Registration
pub mod Uniqueness
pub mod Ownership
pub mod Prefilter
pub mod Discovery
pub mod Sweeping
pub mod Tokens
pub mod Minting
pub mod Tests
