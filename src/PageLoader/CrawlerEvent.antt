-- ===== src/PageLoader/CrawlerEvent.antt =====
-- page_loader/src/events/crawler_event.rs.
use tarantula.Base.{ℕ}
use tarantula.Responses.PageResponse.{PageResponse}

pub data CrawlerEvent : Type 0 where
  complete_event : (uuid : ℕ) → CrawlerEvent
  page_event : PageResponse → CrawlerEvent
