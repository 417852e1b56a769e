-- ===== src/Domain.antt =====
-- crates/domain: the pure domain logic, one module for each source file.
pub mod Base36
pub mod Damm
pub mod Codes
pub mod Codec
pub mod Profanity
pub mod BoundedText
pub mod Imo
pub mod Coords
pub mod Entities
