-- ===== src/Fab.antt =====
-- The Fabricator object of api/fabricator/v1beta1/fabricator_types.go.
pub mod Types
pub mod Targets
pub mod Default
pub mod Users
pub mod Validate
pub mod Hydration
pub mod Ready
pub mod Nodes
pub mod Load
pub mod Hydrated
pub mod Samples
mod Tests
