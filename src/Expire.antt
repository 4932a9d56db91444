-- ===== src/Expire.antt =====
-- bin/varnishd/cache_expire.c: an object's times, the limits of a session, and the timer.
-- Times are in microseconds. A span that is negative, as -1 for "not set" is, is `none`; the times of
-- entry are at least a second.
pub mod Nuke
pub mod Rearm
pub mod Timer
pub mod Turns
pub mod Listed
pub mod Store
pub mod Tests
use pkg_varnish.Prelude.{
  ℕ, zero, suc, ◌+◌, ◌-◌, ◌*◌, ◌/◌, ◌%◌, ◌^◌, ◌≤◌, ◌<◌, ◌≡◌, refl, sym, ap, ◌∙◌, ◌≢◌, ◌↔◌, ◌⊎◌, inl,
  inr, Bool, true, false, not, ◌&&◌, ◌||◌, Option, none, some, List, [], ◌∷◌, ◌++◌, arith, ltb, leb,
  ◌==◌, if◌then◌else◌, ltb→lt, leb→le, ==_iff, Bool-cases, Option-cases, length, get_elem?, set,
  take, drop, length-append, take-nil, take_all, length-take_le, get_elem?-append_left,
  get_elem?-append_right, get_elem?-drop, get_elem?-take, length-drop_le, drop-append_left,
  take-append_left, take-append_right, drop-append_right, drop-drop, drop-nil, ◌>>=◌, ◌>>◌, assert,
}

abbrev pub second : ℕ
second = 1_000_000

-- struct exp.
pub record Exp : Type 0 where
  pub ttl : Option ℕ
  pub grace : Option ℕ
  pub keep : Option ℕ
  pub age : ℕ
  pub entered : ℕ

pub clr : Exp
clr = record { ttl = none; grace = none; keep = none; age = 0; entered = 0 }

unfoldable pub is_positive : Option ℕ → Bool
is_positive none = false
is_positive (some v) = ltb 0 v

-- `fld > 0. ? fld : low_val`.
get_or : Option ℕ → Option ℕ → Option ℕ
get_or low_val fld = if is_positive fld then fld else low_val

pub get_ttl : Exp → Option ℕ
get_ttl e = get_or none e.ttl

pub get_grace : Exp → Option ℕ
get_grace e = get_or (some 0) e.grace

pub get_keep : Exp → Option ℕ
get_keep e = get_or (some 0) e.keep

pub set_ttl : Exp → Option ℕ → Exp
set_ttl e v =
    if is_positive v
    then record e { ttl = v }
    else record e { ttl = none; grace = none; keep = none }

pub set_grace : Exp → Option ℕ → Exp
set_grace e v = if is_positive v then record e { grace = v } else record e { grace = none }

pub set_keep : Exp → Option ℕ → Exp
set_keep e v = if is_positive v then record e { keep = v } else record e { keep = none }

-- A session's own limit, where it is positive and shorter.
unfoldable pub limit : Option ℕ → ℕ → ℕ
limit none r = r
limit (some v) r = if ltb 0 v && ltb v r then v else r

-- The same for a span that may be negative: nothing positive is shorter than that.
unfoldable pub limit_span : Option ℕ → Option ℕ → Option ℕ
limit_span v none = none
limit_span v (some r) = some (limit v r)

unfoldable pub after : ℕ → Option ℕ → ℕ
after entered none = entered - second
after entered (some r) = entered + r

-- A function of the fields of a session's struct exp, where there is a session.
unfoldable pub of_session : Option Exp → (Exp → Option ℕ) → Option ℕ
of_session none f = none
of_session (some sp) f = f sp

unfoldable pub exp_ttl : Option Exp → Exp → ℕ
exp_ttl sp o = after o.entered (limit_span (of_session sp (λ e. e.ttl)) o.ttl)

or_default : ℕ → Option ℕ → ℕ
or_default default none = default
or_default default (some g) = g

module _ (default_grace default_keep : ℕ) where
  pub exp_grace : Option Exp → Exp → ℕ
  exp_grace sp o =
      exp_ttl sp o + limit (of_session sp (λ e. e.grace)) (or_default default_grace o.grace)

  -- A keep of 0 counts as not set.
  pub exp_keep : Option Exp → Exp → ℕ
  exp_keep sp o =
      exp_ttl sp o
      + limit (of_session sp (λ e. e.keep))
          (or_default default_keep (if is_positive o.keep then o.keep else none))

  pub object_when : Exp → ℕ
  object_when o =
      let when = exp_keep none o in let w2 = exp_grace none o in if ltb when w2 then w2 else when

  -- From the old `timer_when`: whether it changed, and the new one.
  pub update_object_when : ℕ → Exp → Bool × ℕ
  update_object_when timer_when o =
      if object_when o == timer_when then (false, timer_when) else (true, object_when o)
