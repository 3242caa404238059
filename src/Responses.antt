-- ===== src/Responses.antt =====
-- The crate responses: the data that the other crates exchange.
pub mod UriScope
pub mod UriProtocol
pub mod Link
pub mod StatusCode
pub mod ResponseTimings
pub mod Redirect
pub mod HeadResponse
pub mod GetResponse
pub mod CrawlStatus
pub mod PageResponse
pub mod RunConfig
