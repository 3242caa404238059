-- ===== src/TextLaws.antt =====
-- Laws of the text functions that the components share.
pub mod Split
pub mod Slashes
