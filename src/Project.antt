-- ===== src/Project.antt =====
-- Projects and conversations that clients synchronise: domain/project, application/project, and
-- project_repository.go and conversation_repository.go of adapter/out/db.
pub mod Model
pub mod Tables
pub mod Service
pub mod Caps
pub mod Tests
