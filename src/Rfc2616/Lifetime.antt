-- ===== src/Rfc2616/Lifetime.antt =====
-- RFC2616_Ttl of bin/varnishd/rfc2616.c.
use pkg_varnish.Prelude.{
  ℕ, ◌+◌, ◌-◌, ◌*◌, ◌≤◌, ◌<◌, ◌≡◌, ◌≢◌, ◌⊎◌, true, none, some, arith, ltb, if◌then◌else◌,
}
use pkg_varnish.Rfc2616.{
  second, lasts, Setting, Claims, is_cacheable, distance, ttl_of_dates, ttl_relative, ttl_of,
}

-- A relative age limit from the backend decides, whatever Expires and Date say.
pub ttl_of-max_age :
    (x : Setting) (h : Claims) (m : ℕ)
    → is_cacheable x.err_code ≡ true
    → h.max_age ≡ some m
    → ttl_of x h ≡ lasts ((m - h.age) * second)
unfolding ttl_of ttl_relative
ttl_of-max_age x h m c e = rw (c, e) (ground arith)

-- The backend's clock is off by at least the tolerance, or there is no Date.
abbrev pub IsSkewed : Setting → Claims → Type 0
IsSkewed x h = (h.h_date ≢ 0) × (x.clock_skew * second ≤ distance (h.h_date * second) x.entered)

-- The header dates moved on by `d` seconds.
abbrev pub moved : ℕ → Claims → Claims
moved d h = record h { h_expires = h.h_expires + d; h_date = h.h_date + d }

-- If the backend's clock is off, and stays off after moving both of its dates, the ttl does not
-- depend on what that clock says: moving Expires and Date by the same time leaves it.
pub ttl_of-moved :
    (x : Setting) (h : Claims) (d : ℕ)
    → h.h_expires ≢ 0
    → IsSkewed x h
    → IsSkewed x (moved d h)
    → ttl_of x (moved d h) ≡ ttl_of x h
unfolding ttl_of ttl_relative ttl_of_dates
ttl_of-moved x h d e s s' = ground arith

-- With the backend's clock within the tolerance, or no Date, a cacheable response with an Expires and
-- no relative limit is kept until its Expires on our clock and no longer, or not at all if that is
-- past or lies before its Date.
pub ttl_of-expires :
    (x : Setting) (h : Claims)
    → is_cacheable x.err_code ≡ true
    → h.max_age ≡ none
    → h.h_expires ≢ 0
    → (h.h_date ≡ 0) ⊎ (distance (h.h_date * second) x.entered < x.clock_skew * second)
    → ttl_of x h
      ≡ (if ltb h.h_expires h.h_date then lasts 0 else lasts (h.h_expires * second - x.entered))
unfolding ttl_of ttl_relative ttl_of_dates
ttl_of-expires x h c m e close = rw (c, m) (ground arith)
