-- ===== src/PageLoader/RobotsService.antt =====
-- page_loader/src/task_context/robots_service.rs.
pub mod Access
use tarantula.Base.{
  ℕ, Bool, true, false, ◌&&◌, ◌||◌, not, Option, none, some, Outcome, done, panic, ◌>>=◌, unwrap,
  if◌then◌else◌, leb, ltb, ◌==◌, Text,
}
use tarantula.Crates.{Crates}
use tarantula.PageLoader.HttpClient.{Response, HttpResult, ok, err}

pub record RobotsService (crates : Crates) : Type 0 where
  pub robot_file_parser : crates.Matcher
  pub uri : Option crates.Uri
  pub user_agent : Text
  pub disallow_all : Bool
  pub allow_all : Bool
  pub is_initialized : Bool

module _ (crates : Crates) where
  unfoldable pub new : Text → RobotsService crates
  new user_agent = record {
    robot_file_parser = crates.default_matcher;
    uri = none;
    user_agent = user_agent;
    disallow_all = false;
    allow_all = false;
    is_initialized = false;
  }

  unfoldable pub can_access : RobotsService crates → Text → Bool
  can_access s item_uri =
      not s.disallow_all
      && (s.allow_all
          || crates.one_agent_allowed_by_robots s.robot_file_parser s.user_agent item_uri)

  -- The match on the status of the answer.
  unfoldable pub apply_status : RobotsService crates → Response → Outcome (RobotsService crates)
  apply_status s response =
      if response.status == 401 || response.status == 403
      then done (record s { disallow_all = true })
      else if leb 400 response.status && ltb response.status 500
      then done (record s { allow_all = true })
      else if response.status == 200
      then (do
        body ← unwrap response.body
        done (record s { robot_file_parser = crates.parse_robots body }))
      else done s

  -- `init`, with the answer to its request: a request that fails leaves the service uninitialised.
  unfoldable pub init :
      RobotsService crates → crates.Uri → HttpResult → Outcome (RobotsService crates)
  unfolding apply_status
  init s uri result = if s.is_initialized then panic else elim result [
    | err message ↦ done (record s { uri = some uri })
    | ok response ↦ do
      applied ← apply_status (record s { uri = some uri }) response
      done (record applied { is_initialized = true })
  ]
