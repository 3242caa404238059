-- ===== src/PageLoader.antt =====
-- The crate page_loader: the crawler itself.
pub mod HttpUtils
pub mod HttpClient
pub mod HttpClientImpl
pub mod FetchHeader
pub mod PageDownload
pub mod RobotsService
pub mod TaskContext
pub mod CrawlerEvent
pub mod TaskManager
pub mod PageRequest
pub mod PageCrawl
pub mod Service
