-- ===== src/Tests/Links.antt =====
-- Links: their scope, their protocol, their clean form, and the order that the parser gives them.
use mathlib.Core.List.{Perm}
use tarantula.LinkResult.UriService.{
  prefix_uri_with_forward_slash, create_uri_string, clean_slashes, normalized, pre_clean_uri,
  normalize_url, form_full_url, squeeze,
}
use tarantula.Base.{
  starts_with, contains, false, true, List, All, ◌↔◌, split, ends_with, join, replace, text_eq, mem,
  subst, ◌||◌, ◌≢◌, arith, ◌≡◌, refl, [], ◌++◌, some, done, Text, codes,
}
use tarantula.LinkResult.UriService.Slashes.{protocols, squeeze-collapse, pre_clean_uri-clean}
use tarantula.Responses.UriScope.{UriScope}
use tarantula.Responses.Link.{Link}
use tarantula.LinkResult.LinkTypeChecker.{LinkTypeChecker}
use tarantula.DomParser.{UriResult, extract_links, get_links}
use tarantula.DomParser.Sorted.{IsSorted, get_links-IsSorted}
use tarantula.TextLaws.Slashes.{collapse}
use tarantula.LinkResult.LinkTypeChecker.Patterns.{get_uri_scope-ne-same_domain}
use tarantula.LinkResult.LinkTypeChecker.Scope.{root_forms, get_uri_scope-eq-root_iff}
use tarantula.LinkResult.UriService.Dots.{IsPlain, root_of, normalized-root, normalize_url-IsPlain}
use tarantula.Tests.Sample.{nodes_of, sample_crates, matches_literal, after_prefix}
use tarantula.LinkResult.LinkTypeChecker

abbrev pub host : Text
host = codes "example.com"

-- What `new` makes for a host.
abbrev pub sample_checker : Text → LinkTypeChecker Text
sample_checker domain = record {
  regexes =
      λ t. some (LinkTypeChecker.pattern_text (LinkTypeChecker.domain_regex (λ s. s) domain) t);
}

scope_example :
    LinkTypeChecker.get_uri_scope sample_crates (sample_checker host) host (codes "/some/path")
    ≡ done (some UriScope.same_domain)
unfolding LinkTypeChecker.get_uri_scope LinkTypeChecker.pattern_text LinkTypeChecker.domain_regex
    LinkTypeChecker.is_match matches_literal after_prefix text_eq starts_with
scope_example = refl

clean_example :
    pre_clean_uri (λ t. t) host (codes "https://example.com//a//b")
    ≡ codes "https://example.com/a/b"
unfolding pre_clean_uri clean_slashes starts_with contains squeeze replace
clean_example = refl

form_example :
    form_full_url sample_crates
      (sample_checker host)
      (codes "https")
      (codes "../b")
      host
      (some (codes "https://example.com/x/y/"))
    ≡ done (codes "https://example.com/x/b")
unfolding form_full_url matches_literal after_prefix LinkTypeChecker.get_uri_scope
    LinkTypeChecker.pattern_text LinkTypeChecker.domain_regex LinkTypeChecker.is_match text_eq
    pre_clean_uri clean_slashes starts_with contains squeeze create_uri_string
    prefix_uri_with_forward_slash normalize_url join split ends_with
form_example = refl

abbrev dashed : Text
dashed = codes "my-site.org"

made_dashed : (c : LinkTypeChecker Text) × (LinkTypeChecker.new sample_crates dashed ≡ done c)
unfolding LinkTypeChecker.new
made_dashed = (_, refl)

quoted_literal :
    (t uri r : Text)
    → some (codes "^https?://" ++ t) ≡ some r
    → some (matches_literal (after_prefix (codes "^https?://") r) r uri)
      ≡ some (starts_with uri (codes "http://" ++ t) || starts_with uri (codes "https://" ++ t))
unfolding matches_literal after_prefix
quoted_literal t uri r e =
    let same : codes "^https?://" ++ t ≡ r = cc in
    subst
      (λ r.
        some (matches_literal (after_prefix (codes "^https?://") r) r uri)
        ≡ some (starts_with uri (codes "http://" ++ t) || starts_with uri (codes "https://" ++ t)))
      same refl

no_scheme :
    (uri r : Text)
    → some (LinkTypeChecker.pattern_text [] LinkTypeChecker.same_domain) ≡ some r
    → some (matches_literal (after_prefix (codes "^https?://") r) r (codes "https://" ++ uri))
      ≡ some false
unfolding matches_literal after_prefix LinkTypeChecker.pattern_text text_eq starts_with
no_scheme uri r e =
    let same : LinkTypeChecker.pattern_text [] LinkTypeChecker.same_domain ≡ r = cc in
    subst
      (λ r.
        some (matches_literal (after_prefix (codes "^https?://") r) r (codes "https://" ++ uri))
        ≡ some false)
      same refl

get_uri_scope-ne-same_domain_example :
    LinkTypeChecker.get_uri_scope sample_crates made_dashed.0 dashed
      (codes "https://my-site.org/page")
    ≢ done (some UriScope.same_domain)
unfolding contains starts_with
get_uri_scope-ne-same_domain_example =
    get_uri_scope-ne-same_domain sample_crates (λ s. refl) quoted_literal no_scheme dashed
      (codes "/page") made_dashed.0 made_dashed.1 refl

get_uri_scope-eq-root_iff_example :
    (LinkTypeChecker.get_uri_scope sample_crates
        (sample_checker host)
        host
        (codes "https://example.com/")
      ≡ done (some UriScope.root))
    ↔ (mem (codes "https://example.com/") (root_forms host) ≡ true)
get_uri_scope-eq-root_iff_example =
    get_uri_scope-eq-root_iff sample_crates (sample_checker host) host
      (codes "https://example.com/")

pre_clean_uri-clean_example :
    (protocol rest : Text) × (pre_clean_uri (λ t. t) host (codes "https://example.com//a//b")
      ≡ protocol ++ rest)
    × (mem protocol protocols ≡ true)
    × (contains rest (codes "//") ≡ false)
pre_clean_uri-clean_example = pre_clean_uri-clean (λ t. t) host (codes "https://example.com//a//b")

squeeze-collapse_example : squeeze 12 (codes "/a//b///c") ≡ collapse (codes "/a//b///c")
squeeze-collapse_example = squeeze-collapse 12 (codes "/a//b///c") (omega arith)

normalize_url-IsPlain_example :
    All IsPlain
      (split b'/' (normalize_url (codes "../b/./c") (some (codes "https://example.com/x/"))))
unfolding contains starts_with
normalize_url-IsPlain_example =
    normalize_url-IsPlain (codes "../b/./c") (some (codes "https://example.com/x/")) refl

normalized-root_example :
    normalized (codes "https") host (some (root_of host)) (codes "../page/x")
    ≡ codes "https://page/x"
unfolding split
normalized-root_example =
    normalized-root host (codes "page/x") (omega arith) (λ e. cc) (λ e. cc, (λ e. cc, tt))

parsed :
    (links : List Link) × (extract_links sample_crates
        (sample_checker host)
        (codes "https")
        host
        (nodes_of (codes "<a href>"))
      ≡ done links)
unfolding extract_links nodes_of contains text_eq LinkTypeChecker.get_uri_scope
    LinkTypeChecker.is_match matches_literal after_prefix LinkTypeChecker.pattern_text
    LinkTypeChecker.get_uri_protocol
parsed = (_, refl)

get_links-IsSorted_example :
    (r : UriResult) × (get_links sample_crates
        (sample_checker host)
        (codes "https")
        host
        7
        (codes "<a href>")
      ≡ done (some r))
    × IsSorted r.links
    × Perm r.links parsed.0
get_links-IsSorted_example =
    get_links-IsSorted sample_crates (sample_checker host) (codes "https") host 7 (codes "<a href>")
      parsed.0 parsed.1
