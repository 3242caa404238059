-- ===== src/Lib.antt =====
-- Tarantula, an event-driven web crawler written in Rust, and its correctness.
--
-- A client puts a run configuration to the server, which makes a task of it. The page loader service
-- receives commands: the first one of a task, and one for each page to load. A page is loaded by a
-- crawl command: it verifies that its URL may be crawled, follows redirects with HEAD requests,
-- downloads an HTML page and extracts its links. For each link that is followed, the service sends a
-- command one level deeper; the page itself goes to the server as an event. A collector drops the
-- tasks that are idle and ends them with an event.
--
-- The files and the code that they model:
--   Base, TextLaws       shared names, texts as lists of code points with the operations of Rust's
--                        `str` that the program calls, computations that may panic (Outcome), and
--                        those that read the clock or ask a server (Io); laws of split and join
--   Crates               what third-party crates give: regular expressions, URIs, the HTML tree,
--                        the robots.txt matcher; a parameter of every definition that uses them
--   Responses            responses/src: the records and enumerations that the crates share
--   LinkResult           linkresult/src: LinkTypeChecker is link_type_checker.rs, UriService is
--                        uri_service.rs (form_full_url, pre_clean_uri, normalize_url)
--   DomParser            dom_parser/src/lib.rs and linkresult/src/uri_result.rs
--   PageLoader           page_loader/src: HttpClient (the trait of http/http_client.rs), HttpUtils
--                        (http/http_utils.rs), FetchHeader and PageDownload (commands/), PageCrawl
--                        (commands/page_crawl_command.rs), RobotsService and TaskContext
--                        (task_context/), TaskManager (task_context_manager/mod.rs), CrawlerEvent
--                        (events/), PageRequest (page_request.rs), Service (page_loader_service.rs;
--                        Service/Process is its loop and the tasks that it spawns),
--                        HttpClientImpl (the rate limit of http/http_client.rs)
--   Server               server/src/http.rs: the route, process and its callbacks
--   Tests                the properties at concrete inputs
-- The files below a module hold its properties.
--
-- A function keeps its name in the code. A part of a function that has none there has a comment. A
-- panic (`unwrap`, `panic!`) is a value, `panic`. The state of a task is the record TaskContext,
-- which the code shares behind locks: an operation takes the old state and returns the new one. A
-- request takes the world, which an HttpClient interprets, and returns a new one; times are natural
-- numbers. Channels are lists of what is sent, in order. Maps are association lists.
--
-- Integers: redirects are counted modulo 2 ^ 8 and the depth modulo 2 ^ 16, as the code does in a
-- release build, and the crawl delay and the collector's timeout are added modulo 2 ^ 64. Three
-- recursions run on fuel: the slash cleaning (a round makes the text shorter, so its length is
-- enough), get_uri_protocol (three rounds) and fetch_header (one round more than the limit of
-- redirects). That the fuel is enough is proved for each of them.
--
-- The requests of one HTTP client are steps of a relation, HttpClientImpl.Reachable, in which any
-- number of them may wait for an answer. The locked steps of several crawls of one task are those of
-- PageCrawl.Race.Interleaved.
--
-- Service.Process is the page loader service as it runs (init_with_factory). Its state is the bounded
-- channel, what the loop does, the spawned tasks each at a stage, and the store of the shared
-- contexts, by address; the task manager's map holds addresses. A step (Process.Steps) is one of the
-- loop's, or one hold of a lock by one spawned task, or its requests, in any order; the clients'
-- requests and the collector's rounds come from outside (Disturbs). The requests of one crawl are one
-- step, whose world may be any. Uuids are drawn from a counter, since they do not repeat themselves.
-- A request to the network always ends there, with an answer or an error, and an event that is sent
-- finds room or is lost. A weight at each depth up to 2 ^ 16 falls with every step, which is why a
-- crawl with a depth limit ends.
--
-- A send to a loop that has ended panics: it is the step `fails` of the running service, and in
-- consume_crawl_result, which gives the commands of one page, an argument says whether the service
-- is there to receive them.
--
-- Two steps are coarser than the code. A collector's round is one step, though the code locks the
-- contexts one by one and drops the tasks of the map afterwards. The commands of a page are computed
-- in one step, before they are sent one by one: a panic in forming a later link's URL (Panics) then
-- comes before any of them is sent, where the code has sent those of the links before it.
--
-- Process.Found is the abstract crawler that the service is compared with: an inductive set of URLs
-- and depths. Process.Exhaustive is the converse: what is found on a page is reported in the end.
--
-- Not modelled: log output; what Rocket's macros put around the route; start-up (src/main.rs);
-- the poisoning of a lock by a panic that holds it; the text of the JSON, of which only the timings
-- matter, since they may panic; and the debug formats.
pub mod Base
pub mod TextLaws
pub mod Crates
pub mod Responses
pub mod LinkResult
pub mod DomParser
pub mod PageLoader
pub mod Server
pub mod Tests
