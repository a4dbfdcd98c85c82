-- ===== src/Quota.antt =====
-- Token quotas: domain/quota, application/quota and adapter/out/db/quota_repository.go.
pub mod Calendar
pub mod Model
pub mod Tables
pub mod Service
pub mod Periods
pub mod Keys
pub mod Usage
pub mod Enforcement
pub mod Checks
pub mod Requests
pub mod Ledger
pub mod Settings
pub mod Tests
