-- ===== src/Auth.antt =====
-- Members, roles and the gates of authorisation: domain/auth, application/auth and the table
-- that adapter/out/db/member_repository.go keeps.
pub mod Role
pub mod Member
pub mod Store
pub mod UseCase
pub mod Rows
pub mod Gates
pub mod Hierarchy
pub mod Others
pub mod Traces
pub mod Login
pub mod Outcomes
mod Tests
