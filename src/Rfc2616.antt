-- ===== src/Rfc2616.antt =====
-- bin/varnishd/rfc2616.c: time to live, the kind of a body, conditional requests.
-- Times are in microseconds; the dates of headers are whole seconds. What strtoul and TIM_parse
-- (lib/libvarnish/time.c, over the C library's strptime) make of a text are arguments.
pub mod Lifetime
pub mod Bodies
pub mod Conditional
pub mod Tests
use pkg_varnish.Prelude.{
  ℕ, zero, suc, ◌+◌, ◌-◌, ◌*◌, ◌/◌, ◌%◌, ◌^◌, ◌≤◌, ◌<◌, ◌≡◌, refl, sym, ap, ◌∙◌, ◌≢◌, ◌↔◌, ◌⊎◌, inl,
  inr, Bool, true, false, not, ◌&&◌, ◌||◌, Option, none, some, List, [], ◌∷◌, ◌++◌, arith, ltb, leb,
  ◌==◌, if◌then◌else◌, ltb→lt, leb→le, ==_iff, Bool-cases, Option-cases, length, get_elem?, set,
  take, drop, length-append, take-nil, take_all, length-take_le, ◌>>=◌, ◌>>◌, assert,
}
use pkg_varnish.Prelude.Ctype.{codes}
use pkg_varnish.Http.{Http, Line, header, get_hdr_data, get_hdr_field, get_hdr_q, hdr_is, eq_nocase}

abbrev pub second : ℕ
second = 1_000_000

abbrev pub unsigned_mod : ℕ
unsigned_mod = 2 ^ 32

-- A ttl of -1, or so many microseconds.
pub data Ttl : Type 0 where
  expired : Ttl
  lasts : ℕ → Ttl

-- What RFC2616_Ttl reads beside the headers: `err_code`, `exp.entered`, and two parameters, the ttl
-- in microseconds, the skew in seconds.
pub record Setting : Type 0 where
  pub err_code : ℕ
  pub entered : ℕ
  pub default_ttl : ℕ
  pub clock_skew : ℕ

-- What the headers say: Age, the value of s-maxage or max-age, Expires and Date (0 if missing).
pub record Claims : Type 0 where
  pub age : ℕ
  pub max_age : Option ℕ
  pub h_expires : ℕ
  pub h_date : ℕ

abbrev pub is_cacheable : ℕ → Bool
is_cacheable code =
    code == 200
    || code == 203
    || code == 300
    || code == 301
    || code == 302
    || code == 307
    || code == 410
    || code == 404

abbrev pub distance : ℕ → ℕ → ℕ
distance a b = (a - b) + (b - a)

-- The part of the switch on Expires and Date. The last ttl is cast to an int: the dates are less than
-- 2^31 seconds apart.
pub ttl_of_dates : Setting → Claims → Ttl
ttl_of_dates x h =
    if h.h_expires == 0
    then lasts x.default_ttl
    else if ltb h.h_expires h.h_date
    then lasts 0
    else if h.h_date == 0 || ltb (distance (h.h_date * second) x.entered) (x.clock_skew * second)
    then (if ltb (h.h_expires * second) x.entered
        then lasts 0
        else lasts (h.h_expires * second - x.entered))
    else lasts ((h.h_expires - h.h_date) * second)

ttl_relative : Setting → Claims → Option ℕ → Ttl
ttl_relative x h none = ttl_of_dates x h
ttl_relative x h (some max_age) =
    if ltb max_age h.age then lasts 0 else lasts ((max_age - h.age) * second)

pub ttl_of : Setting → Claims → Ttl
ttl_of x h = if is_cacheable x.err_code then ttl_relative x h h.max_age else expired

abbrev pub h_age : List ℕ
h_age = codes "Age"

abbrev pub h_expires : List ℕ
h_expires = codes "Expires"

abbrev pub h_date : List ℕ
h_date = codes "Date"

abbrev pub h_cache_control : List ℕ
h_cache_control = codes "Cache-Control"

module _ (strtoul : List ℕ → ℕ) (tim_parse : List ℕ → ℕ) where
  date_of : Option (List ℕ) → ℕ
  date_of none = 0
  date_of (some p) = tim_parse p

  age_of : Option (List ℕ) → ℕ
  age_of none = 0
  age_of (some p) = strtoul p % unsigned_mod

  seconds_of : List ℕ → ℕ
  seconds_of [] = strtoul [] % unsigned_mod
  seconds_of (c ∷ cs) = if c == b'-' then 0 else (strtoul (c ∷ cs) % unsigned_mod)

  -- `(A || B) && p != NULL`, where B is tried only if A finds no such field.
  max_age_of : Option (Option (List ℕ)) → Option (Option (List ℕ)) → Option ℕ
  max_age_of (some (some p)) max_age = some (seconds_of p)
  max_age_of (some none) max_age = none
  max_age_of none (some (some p)) = some (seconds_of p)
  max_age_of none (some none) = none
  max_age_of none none = none

  pub claims_of : Http → Claims
  claims_of hp = record {
    age = age_of (header hp h_age);
    max_age =
        max_age_of (get_hdr_field hp h_cache_control (codes "s-maxage"))
          (get_hdr_field hp h_cache_control (codes "max-age"));
    h_expires = date_of (header hp h_expires);
    h_date = date_of (header hp h_date);
  }

  pub rfc2616_ttl : Setting → Http → Ttl
  rfc2616_ttl x beresp = ttl_of x (claims_of beresp)

pub data BodyStatus : Type 0 where
  bs_none bs_zero bs_error bs_chunked bs_length bs_eof : BodyStatus

-- The counter of `wrk->stats` that RFC2616_Body bumps.
pub data Counter : Type 0 where
  fetch_head fetch_1xx fetch_204 fetch_304 fetch_chunked fetch_bad : Counter
  fetch_length fetch_zero fetch_close fetch_oldhttp fetch_eof : Counter

pub record Body : Type 0 where
  pub status : BodyStatus
  pub counter : Counter
  pub do_close : Bool

abbrev pub h_connection : List ℕ
h_connection = codes "Connection"

abbrev pub h_transfer_encoding : List ℕ
h_transfer_encoding = codes "Transfer-Encoding"

abbrev pub h_content_length : List ℕ
h_content_length = codes "Content-Length"

abbrev pub is_some {ℓ} : {A : Type ℓ} → Option A → Bool
is_some none = false
is_some (some a) = true

close_of : Http → Bool
close_of hp =
    if ltb hp.protover 11 && not (hdr_is hp h_connection (codes "keep-alive"))
    then true
    else if hdr_is hp h_connection (codes "close")
    then true
    else false

body_kind : Http → Http → BodyStatus × Counter
body_kind bereq hp =
    if eq_nocase bereq.request (codes "head")
    then (bs_none, fetch_head)
    else if leb hp.status 199
    then (bs_none, fetch_1xx)
    else if hp.status == 204
    then (bs_none, fetch_204)
    else if hp.status == 304
    then (bs_none, fetch_304)
    else if hdr_is hp h_transfer_encoding (codes "chunked")
    then (bs_chunked, fetch_chunked)
    else if is_some (header hp h_transfer_encoding)
    then (bs_error, fetch_bad)
    else if is_some (header hp h_content_length)
    then (bs_length, fetch_length)
    else if hdr_is hp h_connection (codes "keep-alive")
    then (bs_zero, fetch_zero)
    else if hdr_is hp h_connection (codes "close")
    then (bs_eof, fetch_close)
    else if ltb hp.protover 11
    then (bs_eof, fetch_oldhttp)
    else (bs_eof, fetch_eof)

pub rfc2616_body : Http → Http → Body
rfc2616_body bereq beresp =
    let (status, counter) = body_kind bereq beresp in
    record { status = status; counter = counter; do_close = close_of beresp }

abbrev pub h_accept_encoding : List ℕ
h_accept_encoding = codes "Accept-Encoding"

pub req_gzip : Http → Bool
req_gzip hp =
    is_some (get_hdr_data hp h_accept_encoding (codes "x-gzip"))
    || ltb 0 (get_hdr_q hp h_accept_encoding (codes "gzip")).digits

abbrev pub h_if_modified_since : List ℕ
h_if_modified_since = codes "If-Modified-Since"

abbrev pub h_if_none_match : List ℕ
h_if_none_match = codes "If-None-Match"

abbrev pub h_etag : List ℕ
h_etag = codes "ETag"

pub eq_bytes : List ℕ → List ℕ → Bool
eq_bytes [] [] = true
eq_bytes [] (b ∷ bs) = false
eq_bytes (a ∷ rest) [] = false
eq_bytes (a ∷ rest) (b ∷ bs) = a == b && eq_bytes rest bs

module _ (tim_parse : List ℕ → ℕ) where
  -- If-Modified-Since: `none` is a return of 0, `some` the value of do_cond so far. Both
  -- `last_modified` and `t_req` are times in microseconds.
  cond_modified : ℕ → ℕ → Option (List ℕ) → Option Bool
  cond_modified last_modified t_req none = some false
  cond_modified last_modified t_req (some p) =
      let ims = tim_parse p * second in
      if last_modified == 0
      then none
      else if ltb t_req ims
      then none
      else if ltb ims last_modified
      then none
      else some true

  cond_match : Bool → Option (List ℕ) → Option (List ℕ) → Bool
  cond_match do_cond (some p) (some e) = eq_bytes p e
  cond_match do_cond (some p) none = do_cond
  cond_match do_cond none e = do_cond

  cond_rest : Http → Http → Option Bool → Bool
  cond_rest req obj none = false
  cond_rest req obj (some do_cond) =
      cond_match do_cond (header req h_if_none_match) (header obj h_etag)

  -- The request, when it came, the object's headers and its time of modification.
  pub do_cond : Http → ℕ → Http → ℕ → Bool
  do_cond req t_req obj last_modified =
      cond_rest req obj (cond_modified last_modified t_req (header req h_if_modified_since))
