-- ===== src/LinkResult/UriService/Host.antt =====
-- Links that form_full_url of uri_service.rs keeps on the host of their page.
use tarantula.Base.{◌≡◌, ◌⊎◌, false, ◌++◌, Option, Text, codes, starts_with}
use tarantula.Crates.{Crates}
use tarantula.Responses.UriScope.{UriScope}
use tarantula.LinkResult.LinkTypeChecker
use tarantula.LinkResult.LinkTypeChecker.{LinkTypeChecker}
use tarantula.LinkResult.UriService.{pre_clean_uri}

-- A link with neither scheme of the web.
abbrev pub HasNoScheme : Text → Type 0
HasNoScheme uri =
    (starts_with uri (codes "http://") ≡ false) × (starts_with uri (codes "https://") ≡ false)

-- The path of a link of the site: the root, or the cleaned link, after a slash if it has none.
abbrev pub IsPathOf : UriScope → Text → Text → Type 0
IsPathOf UriScope.root link path = path ≡ codes "/"
IsPathOf _ link path = (path ≡ link) ⊎ (path ≡ codes "/" ++ link)

module _ (crates : Crates) (checker : LinkTypeChecker crates.Regex) (protocol uri host : Text)
    (parent : Option Text) where
  abbrev cleaned : Text
  cleaned = pre_clean_uri crates.encode host uri
