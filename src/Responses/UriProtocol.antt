-- ===== src/Responses/UriProtocol.antt =====
-- responses/src/uri_protocol.rs.
pub data UriProtocol : Type 0 where
  http https implicit : UriProtocol
