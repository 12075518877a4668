-- ===== src/Profile.antt =====
-- crates/wiremux-auth/src/profile: vendor profiles as data, their layers and their defaults.
pub mod Types
pub mod Kebab
pub mod Error
pub mod Raw
pub mod Overlay
pub mod Resolve
pub mod Envsubst
pub mod Refuse
