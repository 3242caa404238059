-- ===== src/Responses/Link.antt =====
-- responses/src/link.rs. Equality of links compares their URIs alone.
use tarantula.Base.{Bool, Option, none, Text, text_eq, trim, not}
use tarantula.Responses.UriScope.{UriScope}
use tarantula.Responses.UriProtocol.{UriProtocol}

pub record Link : Type 0 where
  pub uri : Text
  pub scope : Option UriScope
  pub protocol : Option UriProtocol
  pub source_tag : Option Text

unfoldable pub from_str : Text → Link
from_str s = record { uri = trim s; scope = none; protocol = none; source_tag = none }

unfoldable pub from_str_with_scope : Text → Option UriScope → Link
from_str_with_scope s scope = record {
  uri = trim s;
  scope = scope;
  protocol = none;
  source_tag = none;
}

unfoldable pub eq : Link → Link → Bool
eq a b = text_eq a.uri b.uri

unfoldable pub ne : Link → Link → Bool
unfolding eq
ne a b = not (eq a b)
