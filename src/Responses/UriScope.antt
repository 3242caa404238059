-- ===== src/Responses/UriScope.antt =====
-- responses/src/uri_scope.rs.
pub data UriScope : Type 0 where
  root : UriScope
  same_domain : UriScope
  different_sub_domain : UriScope
  external : UriScope
  anchor : UriScope
  mailto : UriScope
  embedded_image : UriScope
  code : UriScope
  unknown_prefix : UriScope
