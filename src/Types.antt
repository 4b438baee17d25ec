-- ===== src/Types.antt =====
-- Package types: errors, descriptors and manifests, media types, and the index of a repository.
pub mod Error
pub mod Digest
pub mod Descriptor
pub mod MediaType
pub mod Json
pub mod Referrer
pub mod Tag
pub mod Layout
