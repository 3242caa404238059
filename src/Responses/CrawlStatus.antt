-- ===== src/Responses/CrawlStatus.antt =====
-- responses/src/crawl_status.rs.
use tarantula.Base.{Text}

pub data CrawlStatus : Type 0 where
  connection_error : Text → CrawlStatus
  restricted_by_robots_txt : CrawlStatus
  maximum_crawl_depth_reached : CrawlStatus
