-- ===== src/PageLoader/PageRequest.antt =====
-- page_loader/src/page_request.rs: what is read of the URL of a request.
use tarantula.Base.{Outcome, ◌>>=◌, unwrap, Text}
use tarantula.Crates.{Crates}

module _ (crates : Crates) where
  unfoldable pub get_uri : Text → Outcome crates.Uri
  get_uri url = unwrap (crates.parse_uri url)

  unfoldable pub get_protocol : Text → Outcome Text
  unfolding get_uri
  get_protocol url = do uri ← get_uri url; unwrap (crates.scheme_str uri)

  unfoldable pub get_host : Text → Outcome Text
  unfolding get_uri
  get_host url = do uri ← get_uri url; unwrap (crates.host uri)
