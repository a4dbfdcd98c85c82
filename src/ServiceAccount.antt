-- ===== src/ServiceAccount.antt =====
-- Service accounts and their API keys: domain/serviceaccount, application/serviceaccount and the
-- tables of adapter/out/db/serviceaccount_repository.go.
pub mod Model
pub mod Tables
pub mod Service
pub mod Revocation
pub mod Tokens
mod Tests
