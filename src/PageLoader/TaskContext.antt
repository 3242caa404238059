-- ===== src/PageLoader/TaskContext.antt =====
-- page_loader/src/task_context/task_context.rs: the state that the commands of one task share. The
-- response channel of a task and its HTTP client are no part of the record: there is one of each.
-- Instants are in nanoseconds.
pub mod Registrar
use tarantula.Base.{
  ◌%◌, ℕ, ◌+◌, ◌-◌, ◌*◌, Bool, true, false, ◌&&◌, not, List, [], ◌∷◌, ◌++◌, Option, none, some,
  Outcome, done, ◌>>=◌, unwrap, if◌then◌else◌, ltb, ◌==◌, length, retain, Text, codes,
}
use tarantula.Crates.{Crates}
use tarantula.Responses.RunConfig.{RunConfig}
use tarantula.LinkResult.LinkTypeChecker
use tarantula.LinkResult.LinkTypeChecker.{LinkTypeChecker}
use tarantula.PageLoader.RobotsService
use tarantula.PageLoader.RobotsService.{RobotsService}

pub record TaskConfig (Uri : Type 0) : Type 0 where
  pub uri : Uri
  pub ignore_redirects : Bool
  pub maximum_redirects : ℕ
  pub maximum_depth : ℕ
  pub ignore_robots_txt : Bool
  pub keep_html_in_memory : Bool
  pub user_agent : Text
  pub robots_txt_info_url : Option Text
  pub crawl_delay_ms : ℕ

abbrev pub unwrap_or_else {ℓ} : {A : Type ℓ} → Option A → A → A
unwrap_or_else none d = d
unwrap_or_else (some a) d = a

pub record TaskContext (crates : Crates) : Type 0 where
  pub task_config : TaskConfig crates.Uri
  pub link_type_checker : LinkTypeChecker crates.Regex
  pub robots_service : RobotsService crates
  pub uuid : ℕ
  pub last_command_received : ℕ
  pub all_crawled_links : List Text
  pub all_tasked_links : List Text
  pub crawl_commands : List ℕ

module _ (crates : Crates) where
  unfoldable pub new : RunConfig → Outcome (TaskConfig crates.Uri)
  new run_config = do
    uri ← unwrap (crates.parse_uri run_config.url)
    done (record {
      uri = uri;
      ignore_redirects = unwrap_or_else run_config.ignore_redirects false;
      maximum_redirects = unwrap_or_else run_config.maximum_redirects 10;
      maximum_depth = unwrap_or_else run_config.maximum_depth 16;
      ignore_robots_txt = unwrap_or_else run_config.ignore_robots_txt false;
      keep_html_in_memory = unwrap_or_else run_config.keep_html_in_memory false;
      user_agent = unwrap_or_else run_config.user_agent (codes "tarantula");
      robots_txt_info_url = run_config.robots_txt_info_url;
      crawl_delay_ms = unwrap_or_else run_config.crawl_delay_ms 500;
    })

  unfoldable pub init : RunConfig → ℕ → ℕ → Outcome (TaskContext crates)
  unfolding new
  init run_config uuid now = do
    hyper_uri ← unwrap (crates.parse_uri run_config.url)
    task_config ← new run_config
    host ← unwrap (crates.host hyper_uri)
    link_type_checker ← LinkTypeChecker.new crates host
    done (record {
      task_config = task_config;
      link_type_checker = link_type_checker;
      robots_service = RobotsService.new crates task_config.user_agent;
      uuid = uuid;
      last_command_received = now;
      all_crawled_links = [];
      all_tasked_links = [];
      crawl_commands = [];
    })

  unfoldable pub get_url : TaskContext crates → Text
  get_url c = crates.uri_to_string c.task_config.uri

  unfoldable pub set_last_command_received : TaskContext crates → ℕ → TaskContext crates
  set_last_command_received c instant = record c { last_command_received = instant }

  -- The delay and the timeout are added as u64.
  unfoldable pub can_be_garbage_collected : TaskContext crates → ℕ → ℕ → Bool
  can_be_garbage_collected c now gc_timeout_ms =
      (length c.crawl_commands == 0)
      && ltb c.last_command_received now
      && ltb
          ((c.task_config.crawl_delay_ms + gc_timeout_ms) % 18_446_744_073_709_551_616 * 1_000_000)
          (now - c.last_command_received)

  unfoldable pub add_crawled_link : TaskContext crates → Text → TaskContext crates
  add_crawled_link c link = record c { all_crawled_links = c.all_crawled_links ++ link ∷ [] }

  unfoldable pub can_access : TaskContext crates → Text → Bool
  can_access c item_uri = RobotsService.can_access crates c.robots_service item_uri

  unfoldable pub register_crawl_command : TaskContext crates → ℕ → TaskContext crates
  register_crawl_command c uuid = record c { crawl_commands = c.crawl_commands ++ uuid ∷ [] }

  unfoldable pub unregister_crawl_command : TaskContext crates → ℕ → TaskContext crates
  unregister_crawl_command c uuid = record c {
    crawl_commands = retain (λ value. not (value == uuid)) c.crawl_commands;
  }

  unfoldable pub get_registered_tasks : TaskContext crates → ℕ
  get_registered_tasks c = length c.crawl_commands
