-- ===== src/Profile.antt =====
-- internal/profiledefinition and internal/profile.
pub mod Definition
pub mod Normalize
pub mod Validate
pub mod Store
pub mod Match
pub mod Compile
