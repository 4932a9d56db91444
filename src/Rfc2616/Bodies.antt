-- ===== src/Rfc2616/Bodies.antt =====
-- RFC2616_Body of bin/varnishd/rfc2616.c.
use pkg_varnish.Prelude.{◌≡◌, ◌↔◌, Bool, true, false, ◌||◌, none, arith, ltb, ◌==◌}
use pkg_varnish.Prelude.Ctype.{codes}
use pkg_varnish.Http.{Http, header, hdr_is, eq_nocase}
use pkg_varnish.Http.Lookup.{hdr_is-header}
use pkg_varnish.Rfc2616.{
  bs_none, bs_chunked, bs_length, bs_eof, rfc2616_body, body_kind, close_of, is_some, h_connection,
  h_transfer_encoding, h_content_length,
}

-- The response cannot have a body, whatever its headers say.
abbrev pub bodiless : Http → Http → Bool
bodiless bereq beresp =
    eq_nocase bereq.request (codes "head")
    || ltb beresp.status 200
    || beresp.status == 204
    || beresp.status == 304

module _ (bereq beresp : Http) where
  -- No body is read exactly for a HEAD request or a 1xx, 204 or 304 response; of the others, a body
  -- is chunked exactly where Transfer-Encoding says so, and has the length of Content-Length exactly
  -- where there is one and no Transfer-Encoding.
  pub body-cases :
      ((rfc2616_body bereq beresp).status ≡ bs_none ↔ bodiless bereq beresp ≡ true)
      × ((rfc2616_body bereq beresp).status ≡ bs_chunked
          ↔ (bodiless bereq beresp ≡ false)
            × (hdr_is beresp h_transfer_encoding (codes "chunked") ≡ true))
      × ((rfc2616_body bereq beresp).status ≡ bs_length
          ↔ (bodiless bereq beresp ≡ false)
            × (header beresp h_transfer_encoding ≡ none)
            × (is_some (header beresp h_content_length) ≡ true))
  unfolding rfc2616_body body_kind
  body-cases = grind (arith, hdr_is-header)

  -- Where a body ends with the connection, do_close is set exactly for a response before HTTP/1.1 and
  -- for one with Connection: close.
  pub eof-closes :
      (rfc2616_body bereq beresp).status ≡ bs_eof
      → (rfc2616_body bereq beresp).do_close
        ≡ (ltb beresp.protover 11 || hdr_is beresp h_connection (codes "close"))
  unfolding rfc2616_body body_kind close_of
  eof-closes h = ground arith
