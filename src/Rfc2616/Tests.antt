-- ===== src/Rfc2616/Tests.antt =====
-- Runs of bin/varnishd/rfc2616.c, and its theorems at small messages.
use pkg_varnish.Prelude.{◌*◌, ◌≡◌, refl, ◌↔◌, true, ◌&&◌, ◌||◌, none, [], ◌∷◌}
use pkg_varnish.Prelude.Ctype.{codes}
use pkg_varnish.Http.{Http, header, hdr_is, is_value, value_at, find_hdr, eq_nocase}
use pkg_varnish.Http.Lookup.{lines}
use pkg_varnish.Rfc2616.{
  second, Setting, Claims, bs_eof, rfc2616_body, body_kind, do_cond, is_some, h_if_modified_since,
  h_if_none_match, h_etag,
}
use pkg_varnish.Rfc2616.Conditional.{DatePasses, TagPasses, do_cond_iff}

abbrev setting : Setting
setting = record {
  err_code = 200;
  entered = 1000 * second;
  default_ttl = 120 * second;
  clock_skew = 10;
}

abbrev skewed : Claims
skewed = record { age = 0; max_age = none; h_expires = 160; h_date = 100 }

abbrev request : Http
request = record {
  request = codes "GET";
  status = 0;
  protover = 11;
  lines = lines (record { name = codes "If-None-Match"; value = codes "1" } ∷ []);
}

abbrev response : Http
response = record {
  request = [];
  status = 200;
  protover = 10;
  lines = lines (record { name = codes "ETag"; value = codes "1" } ∷ []);
}

eof_runs : (rfc2616_body request response).status ≡ bs_eof
unfolding rfc2616_body body_kind hdr_is is_value header value_at find_hdr eq_nocase
eof_runs = refl

do_cond_iff_example : (do_cond (λ p. 5) request 9 response 3 ≡ true) ↔ (
    DatePasses (λ p. 5) 3 9 (header request h_if_modified_since)
    × TagPasses (header request h_if_none_match) (header response h_etag)
    × ((is_some (header request h_if_modified_since)
          || is_some (header request h_if_none_match) && is_some (header response h_etag))
        ≡ true))
do_cond_iff_example = do_cond_iff (λ p. 5) request 9 response 3
