-- ===== src/ToolPolicy.antt =====
-- The tool policy that the server controls: domain/toolpolicy and application/toolpolicy.
pub mod Policy
pub mod Floor
pub mod Cleaning
pub mod Manager
pub mod Overrides
pub mod Coherence
mod Tests
