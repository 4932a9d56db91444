-- ===== src/Http/Tests.antt =====
-- Runs of bin/varnishd/cache_http.c, and its theorems at a small message.
use pkg_varnish.Prelude.{◌≡◌, refl, some, List, [], ◌∷◌, arith}
use pkg_varnish.Prelude.Ctype.{codes}
use pkg_varnish.Http.{
  Http, connection_close, header, get_hdr, get_hdr_data, get_hdr_field, get_hdr_q, do_connection,
  value_at, find_hdr, skip_sp, skip_lws, text_at, data_loop, starts_with, ends_token, in_value,
  field_value, after_equals, quality_of, expect, whole_part, fraction, connection_of,
  connection_loop, tokens, emit, is_delimiter,
}
use pkg_varnish.Vct.{is_sp, is_lws, is_sepctl, is_digit}
use pkg_varnish.Http.{connection}
use pkg_varnish.Http.Lookup.{Field, lines, lookup, get_hdr-lookup}

abbrev fields : List Field
fields =
    record { name = codes "Cache-Control"; value = codes " private, max-age = 60" }
    ∷ record { name = codes "Connection"; value = codes " Close, X-Foo" }
    ∷ record { name = codes "x-foo"; value = codes "1" }
    ∷ record { name = codes "Accept-Encoding"; value = codes " deflate,gzip;q=0.5" }
    ∷ []

abbrev message : Http
message = record { request = codes "GET"; status = 200; protover = 11; lines = lines fields }

max_age : get_hdr_field message (codes "cache-control") (codes "max-age") ≡ some (some (codes "60"))
unfolding get_hdr_field get_hdr_data header value_at find_hdr skip_sp skip_lws text_at data_loop
    starts_with ends_token in_value field_value after_equals is_sp is_lws is_sepctl
max_age = refl

quality :
    get_hdr_q message (codes "Accept-Encoding") (codes "gzip") ≡ record { digits = 5; places = 1 }
unfolding get_hdr_q get_hdr_data header value_at find_hdr skip_sp skip_lws text_at data_loop
    starts_with ends_token in_value quality_of expect whole_part fraction is_sp is_lws is_sepctl
    is_digit
quality = refl

closes : (do_connection message).0 ≡ some connection_close
unfolding do_connection connection_of connection_loop tokens emit is_delimiter header value_at
    find_hdr skip_sp text_at is_sp
closes = refl

get_hdr-lookup_example : get_hdr message (codes "X-FOO") ≡ some (lookup (codes "X-FOO") fields)
get_hdr-lookup_example =
    get_hdr-lookup (codes "X-FOO") (omega arith) message fields refl (omega arith)

has_connection : header message connection ≡ some (codes "Close, X-Foo")
unfolding header value_at find_hdr skip_sp text_at is_sp
has_connection = refl
