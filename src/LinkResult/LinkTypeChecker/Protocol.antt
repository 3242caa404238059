-- ===== src/LinkResult/LinkTypeChecker/Protocol.antt =====
-- The recursion of `get_uri_protocol` of link_type_checker.rs.
use tarantula.Base.{
  ℕ, suc, ◌≡◌, refl, [], Option, none, some, Outcome, arith, Text, starts_with, text_eq, ap, ◌≢◌,
  ◌∙◌, panic,
}
use tarantula.Crates.{Crates}
use tarantula.Responses.UriProtocol.{UriProtocol}
use tarantula.LinkResult.LinkTypeChecker.{
  LinkTypeChecker, protocol_round, protocol_from, get_uri_protocol,
}

module _ (crates : Crates) (c : LinkTypeChecker crates.Regex) where
  -- A round on the empty text ends the recursion.
  protocol_round-nil :
      (x y : Option (Outcome (Option UriProtocol)))
      → protocol_round crates c [] x ≡ protocol_round crates c [] y
  unfolding protocol_round starts_with text_eq
  protocol_round-nil x y = ground arith

  protocol_round-ne-none :
      (uri : Text) (x : Option (Outcome (Option UriProtocol)))
      → x ≢ none
      → protocol_round crates c uri x ≢ none
  unfolding protocol_round
  protocol_round-ne-none uri x h = ground arith

  protocol_round-nil-ne-none :
      (x : Option (Outcome (Option UriProtocol))) → protocol_round crates c [] x ≢ none
  unfolding protocol_round starts_with text_eq
  protocol_round-nil-ne-none x = ground arith

  -- The recursion is at most three calls deep: further fuel changes nothing.
  protocol_from-fuel :
      (extra : ℕ) (parent uri : Text)
      → protocol_from crates c (suc (suc (suc extra))) parent uri
        ≡ protocol_from crates c 3 parent uri
  unfolding protocol_from
  protocol_from-fuel extra parent uri =
      ap (protocol_round crates c uri)
        (ap (protocol_round crates c parent) (protocol_round-nil _ _))

  get_uri_protocol-eq :
      (parent uri : Text)
      → protocol_from crates c 3 parent uri ≡ some (get_uri_protocol crates c parent uri)
  unfolding get_uri_protocol protocol_from
  get_uri_protocol-eq parent uri = keep (protocol_from crates c 3 parent uri) (
      protocol_round-ne-none uri _
        (protocol_round-ne-none parent _ (protocol_round-nil-ne-none none)))
    where
      keep :
          (o : Option (Outcome (Option UriProtocol)))
          → o ≢ none
          → o ≡ some (elim o [ none ↦ panic | some result ↦ result ])
      keep none h = absurd (h refl)
      keep (some r) h = refl

  -- The recursion is at most three calls deep, and has a result.
  pub get_uri_protocol-total :
      (extra : ℕ) (parent uri : Text)
      → protocol_from crates c (suc (suc (suc extra))) parent uri
        ≡ some (get_uri_protocol crates c parent uri)
  get_uri_protocol-total extra parent uri =
      protocol_from-fuel extra parent uri ∙ get_uri_protocol-eq parent uri
