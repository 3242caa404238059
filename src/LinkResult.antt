-- ===== src/LinkResult.antt =====
-- The crate linkresult: what kind of link a URI is, and the absolute URL that it stands for.
pub mod LinkTypeChecker
pub mod UriService
