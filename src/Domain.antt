-- ===== src/Domain.antt =====
-- include/cmlb/domain, src/domain: the business rules, with no effects.
pub mod Identifiers
pub mod Authority
pub mod UploadDestination
pub mod ByteSize
pub mod Task
