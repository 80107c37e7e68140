-- ===== src/SemanticVersion.antt =====
-- backend/cmd/bridra/semantic_version.go: semantic versions, parsed and compared.
pub mod Version
pub mod Comparison
pub mod Numerals
pub mod Parsing
pub mod Examples
