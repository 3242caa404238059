-- ===== src/Tests/Tasks.antt =====
-- Tasks: their registered commands, their map, its collector, and the verdict on a command.
use tarantula.Base.{
  ◌≡◌, ◌↔◌, ◌⊎◌, ◌≤◌, ◌<◌, refl, ℕ, [], ◌∷◌, none, true, false, Text, codes, map, if◌then◌else◌,
  mem, text_eq,
}
use tarantula.PageLoader.CrawlerEvent.{complete_event}
use tarantula.PageLoader.TaskContext.{
  TaskContext, can_access, can_be_garbage_collected, register_crawl_command,
  unregister_crawl_command,
}
use tarantula.PageLoader.PageCrawl.Race.{Crawls, Interleaved, Interleaved-twice}
use tarantula.PageLoader.PageCrawl.{PageCrawlCommand, verify_crawlability, crawlable}
use tarantula.PageLoader.TaskManager.{TaskManager, to_gc, has_key, lookup, do_garbage_collection}
use tarantula.PageLoader.TaskManager.Collection.{IsValid, collectable, do_garbage_collection_lem}
use tarantula.PageLoader.PageCrawl.Verdict.{
  crawls, knows, fetches, fetches-le-one, verify_crawlability-eq-crawlable_iff,
}
use tarantula.Tests.Sample.{sample_crates}
use tarantula.Tests.Links.{host, sample_checker}
use tarantula.PageLoader.RobotsService
use tarantula.PageLoader.TaskContext

abbrev pub page_a : Text
page_a = codes "https://example.com/a"

abbrev pub page_b : Text
page_b = codes "https://example.com/b"

-- A task that has crawled one page, with a limit of two levels.
abbrev pub sample_task : TaskContext sample_crates
sample_task = record {
  task_config = record {
    uri = codes "https://example.com";
    ignore_redirects = false;
    maximum_redirects = 10;
    maximum_depth = 2;
    ignore_robots_txt = false;
    keep_html_in_memory = false;
    user_agent = codes "tarantula";
    robots_txt_info_url = none;
    crawl_delay_ms = 500;
  };
  link_type_checker = sample_checker host;
  robots_service = record {
    robot_file_parser = [];
    uri = none;
    user_agent = codes "tarantula";
    disallow_all = false;
    allow_all = false;
    is_initialized = false;
  };
  uuid = 7;
  last_command_received = 0;
  all_crawled_links = page_a ∷ [];
  all_tasked_links = page_a ∷ [];
  crawl_commands = 3 ∷ [];
}

abbrev pub command_b : PageCrawlCommand
command_b = record { url = page_b; raw_url = codes "/b"; current_depth = 1; uuid = 4 }

abbrev manager : TaskManager sample_crates
manager = record { tasks = (7, sample_task) ∷ []; gc_timeout_ms = 60_000 }

abbrev late : ℕ → ℕ
late key = 100_000_000_000

manager-IsValid : IsValid sample_crates manager
unfolding lookup
manager-IsValid = record { distinct = (refl, tt); keyed = (refl, tt) }

do_garbage_collection_lem_example :
    IsValid sample_crates (do_garbage_collection sample_crates late manager).0
    × ((key : ℕ)
        → lookup key (do_garbage_collection sample_crates late manager).0.tasks ≡ (
            if collectable sample_crates late 60_000 key (lookup key manager.tasks)
            then none
            else lookup key manager.tasks))
    × ((do_garbage_collection sample_crates late manager).1
        ≡ map complete_event (to_gc sample_crates late 60_000 manager.tasks))
    × ((key : ℕ)
        → has_key key (to_gc sample_crates late 60_000 manager.tasks)
          ≡ collectable sample_crates late 60_000 key (lookup key manager.tasks))
do_garbage_collection_lem_example =
    do_garbage_collection_lem sample_crates late manager manager-IsValid

verify_crawlability-eq-crawlable_iff_example :
    (verify_crawlability sample_crates sample_task command_b ≡ crawlable) ↔ (
      ((sample_task.task_config.maximum_depth ≡ 0)
        ⊎ (command_b.current_depth < sample_task.task_config.maximum_depth))
      × (mem command_b.url sample_task.all_crawled_links ≡ false)
      × (mem command_b.url sample_task.all_tasked_links ≡ false)
      × (can_access sample_crates sample_task command_b.url ≡ true))
verify_crawlability-eq-crawlable_iff_example =
    verify_crawlability-eq-crawlable_iff sample_crates sample_task command_b

fetches-le-one_example :
    fetches sample_crates page_b sample_task
      (crawls command_b ∷ knows page_b ∷ crawls command_b ∷ [])
    ≤ 1
fetches-le-one_example =
    fetches-le-one sample_crates page_b sample_task
      (crawls command_b ∷ knows page_b ∷ crawls command_b ∷ [])

b-crawlable : verify_crawlability sample_crates sample_task command_b ≡ crawlable
unfolding verify_crawlability RobotsService.can_access TaskContext.can_access text_eq
b-crawlable = refl

Interleaved-twice_example :
    (s : Crawls sample_crates) × Interleaved sample_crates sample_task s
    × (s.fetched ≡ page_b ∷ page_b ∷ [])
Interleaved-twice_example = Interleaved-twice sample_crates sample_task command_b b-crawlable
