-- ===== src/Poll.antt =====
-- bin/varnishd/cache_backend_poll.c: health probes of a backend.
-- Time is what the environment answers: whether a wait ran out. The response times `last`, `avg`
-- and `rate`, which decide nothing, the log and the thread are left out.
pub mod Window
pub mod Outcome
pub mod History
pub mod Tests
use pkg_varnish.Prelude.{
  ℕ, zero, suc, ◌+◌, ◌-◌, ◌*◌, ◌/◌, ◌%◌, ◌^◌, ◌≤◌, ◌<◌, ◌≡◌, refl, sym, ap, ◌∙◌, ◌≢◌, ◌↔◌, ◌⊎◌, inl,
  inr, Bool, true, false, not, ◌&&◌, ◌||◌, Option, none, some, List, [], ◌∷◌, ◌++◌, arith, ltb, leb,
  ◌==◌, if◌then◌else◌, ltb→lt, leb→le, ==_iff, Bool-cases, Option-cases, length, get_elem?, set,
  take, drop, length-append, take-nil, take_all, length-take_le, ◌>>=◌, ◌>>◌, assert,
}

abbrev pub u64_mod : ℕ
u64_mod = 2 ^ 64

-- The bitmaps of cache_backend_poll.h, newest probe in bit 0.
pub record Target : Type 0 where
  pub window : ℕ
  pub threshold : ℕ
  pub good : ℕ
  pub good_ipv4 : ℕ
  pub good_ipv6 : ℕ
  pub err_xmit : ℕ
  pub good_xmit : ℕ
  pub err_recv : ℕ
  pub good_recv : ℕ
  pub happy : ℕ
  pub healthy : Bool

-- `u <<= 1` and `u |= 1`.
abbrev pub shift : ℕ → ℕ
shift u = u * 2 % u64_mod

abbrev pub mark : ℕ → ℕ
mark u = if u % 2 == 0 then u + 1 else u

pub start_poke : Target → Target
start_poke vt = record vt {
  good_ipv4 = shift vt.good_ipv4;
  good_ipv6 = shift vt.good_ipv6;
  err_xmit = shift vt.err_xmit;
  good_xmit = shift vt.good_xmit;
  err_recv = shift vt.err_recv;
  good_recv = shift vt.good_recv;
  happy = shift vt.happy;
}

pub data Write : Type 0 where
  whole short failed : Write

-- One round of the receive loop: the wait runs out, or read returns bytes, the end, or an error.
pub data Read : Type 0 where
  timeout : Read
  bytes : ℕ → Read
  end error : Read

-- What the network and the clock answer to one probe. A field `late_` says that no time is left
-- after the step; `matches` that the status line parses and has the expected status.
pub record Answers : Type 0 where
  pub prefer_ipv6 : Bool
  pub has_ipv4 : Bool
  pub has_ipv6 : Bool
  pub connects_ipv4 : Bool
  pub connects_ipv6_first : Bool
  pub connects_ipv6_last : Bool
  pub late_first : Bool
  pub late_second : Bool
  pub late_third : Bool
  pub written : Write
  pub reads : List Read
  pub matches : Bool

-- Whether a connection stands, whether time is left, and the target.
abbrev pub Connecting : Type 0
Connecting = Bool × Bool × Target

connect_first : Answers → Target → Connecting
connect_first a vt =
    if a.prefer_ipv6 && a.has_ipv6
    then (
      a.connects_ipv6_first,
      not a.late_first,
      if a.connects_ipv6_first then record vt { good_ipv6 = mark vt.good_ipv6 } else vt,
    )
    else (false, true, vt)

connect_second : Answers → Connecting → Connecting
connect_second a (s, time, vt) =
    if time && not s && a.has_ipv4
    then (
      a.connects_ipv4,
      not a.late_second,
      if a.connects_ipv4 then record vt { good_ipv4 = mark vt.good_ipv4 } else vt,
    )
    else (s, time, vt)

connect_third : Answers → Connecting → Connecting
connect_third a (s, time, vt) =
    if time && not s && a.has_ipv6
    then (
      a.connects_ipv6_last,
      not a.late_third,
      if a.connects_ipv6_last then record vt { good_ipv6 = mark vt.good_ipv6 } else vt,
    )
    else (s, time, vt)

pub data Received : Type 0 where
  gave_up broken : Received
  complete : ℕ → Received

-- The do-while loop, from `rlen` bytes; a list that ends is a wait that runs out.
receive : ℕ → List Read → Received
receive rlen [] = gave_up
receive rlen (timeout ∷ rs) = gave_up
receive rlen (bytes n ∷ rs) = receive (rlen + n) rs
receive rlen (end ∷ rs) = complete rlen
receive rlen (error ∷ rs) = broken

judge : Answers → Target → Received → Target
judge a vt gave_up = vt
judge a vt broken = record vt { err_recv = mark vt.err_recv }
judge a vt (complete zero) = vt
judge a vt (complete (suc n)) =
    let received : Target = record vt { good_recv = mark vt.good_recv } in
    if a.matches then record received { happy = mark received.happy } else received

send : Answers → Target → Write → Target
unfolding receive judge
send a vt whole =
    let sent : Target = record vt { good_xmit = mark vt.good_xmit } in
    judge a sent (receive 0 a.reads)
send a vt short = vt
send a vt failed = record vt { err_xmit = mark vt.err_xmit }

exchange : Answers → Connecting → Target
exchange a (s, time, vt) = if s && time then send a vt a.written else vt

pub poke : Answers → Target → Target
poke a vt = exchange a (connect_third a (connect_second a (connect_first a vt)))

-- `for (i = j = 0; i < window; i++) { if (u & 1) j++; u >>= 1; }`
pub window_loop : ℕ → ℕ → ℕ → ℕ
window_loop zero u j = j
window_loop (suc i) u j = window_loop i (u / 2) (if u % 2 == 1 then j + 1 else j)

pub has_poked : Target → Target
has_poked vt =
    let good = window_loop vt.window vt.happy 0 in
    record vt { good = good; healthy = leb vt.threshold good }

-- One round of the probe thread.
pub probe : Answers → Target → Target
probe a vt = has_poked (poke a (start_poke vt))

pub record Probe : Type 0 where
  pub window : ℕ
  pub threshold : ℕ
  pub initial : ℕ

abbrev pub max_unsigned : ℕ
max_unsigned = 2 ^ 32 - 1

or_default : ℕ → ℕ → ℕ
or_default v default = if v == 0 then default else v

pub new_vcl : Probe → Probe
unfolding or_default
new_vcl p =
    let window = or_default p.window 8 in
    let threshold = or_default p.threshold 3 in
    let initial = if threshold == max_unsigned then threshold - 1 else p.initial in
    record {
      window = window;
      threshold = threshold;
      initial = if ltb threshold initial then threshold else initial;
    }

-- A poke that VBP_Insert makes up.
pub presume : Target → Target
presume vt =
    let started = start_poke vt in has_poked (record started { happy = mark started.happy })

pub presume_all : ℕ → Target → Target
presume_all zero vt = vt
presume_all (suc u) vt = presume_all u (presume vt)

abbrev pub new_target : Bool → Target
new_target healthy = record {
  window = 0;
  threshold = 0;
  good = 0;
  good_ipv4 = 0;
  good_ipv6 = 0;
  err_xmit = 0;
  good_xmit = 0;
  err_recv = 0;
  good_recv = 0;
  happy = 0;
  healthy = healthy;
}

-- The first probe of a backend, whose own state of health stands until the first poke. The thread
-- takes window and threshold from the probe before it pokes; the pokes made up here see zeros.
pub insert : Bool → Probe → Target
insert healthy p = presume_all (new_vcl p).initial (new_target healthy)

-- The thread finds another probe at the head of the list, and takes it.
pub adopt : Probe → Target → Target
adopt p vt = record vt { window = p.window; threshold = p.threshold }
