-- ===== src/Provider.antt =====
-- LLM providers: domain/llmprovider, application/llmprovider, adapter/out/db/llmprovider_repository.go,
-- and the cache and the factory of adapter/out/llm.
pub mod Model
pub mod Tables
pub mod Service
pub mod Single
pub mod Coherence
pub mod Requests
pub mod Keys
pub mod Tests
