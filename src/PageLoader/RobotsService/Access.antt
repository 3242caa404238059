-- ===== src/PageLoader/RobotsService/Access.antt =====
-- Which URIs a robots service of robots_service.rs allows, by the answer that it was given.
use tarantula.Base.{◌≡◌, ◌≢◌, ◌<◌, ◌≤◌, true, false, some, done, panic, arith, Text, ◌⊎◌}
use tarantula.Crates.{Crates}
use tarantula.PageLoader.HttpClient.{Response, HttpResult, ok}
use tarantula.PageLoader.RobotsService.{RobotsService, new, can_access, init}

module _ (crates : Crates) (agent : Text) (uri : crates.Uri) (response : Response)
    (s : RobotsService crates)
    (made : init crates (new crates agent) uri (ok response) ≡ done s) where
  -- After the answer to the request for robots.txt: "unauthorized" and "forbidden" forbid every
  -- page, any other client error allows every page, a file is asked, and so is the matcher that has
  -- read nothing after any other status. The service cannot be initialised again.
  pub init-can_access :
      (item : Text) (again : HttpResult)
      → ((response.status ≡ 401) ⊎ (response.status ≡ 403) → can_access crates s item ≡ false)
        × (400 ≤ response.status
            → response.status < 500
            → response.status ≢ 401
            → response.status ≢ 403
            → can_access crates s item ≡ true)
        × ((body : Text)
            → response.status ≡ 200
            → response.body ≡ some body
            → can_access crates s item
              ≡ crates.one_agent_allowed_by_robots (crates.parse_robots body) agent item)
        × ((response.status < 400) ⊎ (500 ≤ response.status)
            → response.status ≢ 200
            → can_access crates s item
              ≡ crates.one_agent_allowed_by_robots crates.default_matcher agent item)
        × (init crates s uri again ≡ panic)
  unfolding init new can_access
  init-can_access item again =
      (ground arith, ground arith, λ body h k. ground arith, ground arith, ground arith)
