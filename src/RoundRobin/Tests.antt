-- ===== src/RoundRobin/Tests.antt =====
-- Runs of bin/varnishd/cache_dir_round_robin.c, and its theorems at three hosts, two of them healthy.
-- The shared state counts the connections made; a connection is the host's number.
use pkg_varnish.Prelude.{
  ℕ, ◌+◌, ◌≡◌, refl, Bool, false, not, Option, none, some, List, [], ◌∷◌, arith, ◌==◌,
}
use pkg_varnish.RoundRobin.{
  Mode, round_robin, fallback, RoundRobin, place, advance, lookup_all, init_dir, visit, visit_if,
  return_or, getfd_loop, getfd,
}
use pkg_varnish.RoundRobin.Trail.{order, moved}
use pkg_varnish.RoundRobin.Attempts.{attempt, getfd-attempt}

abbrev is_up : ℕ → Bool
is_up b = not (b == 8)

abbrev up : ℕ → ℕ → Bool × ℕ
up b w = (is_up b, w)

abbrev down : ℕ → ℕ → Bool × ℕ
down b w = (false, w + 1)

abbrev connect : ℕ → ℕ → Option ℕ × ℕ
connect b w = (some b, w + 1)

abbrev hosts : List ℕ
hosts = 7 ∷ 8 ∷ 9 ∷ []

abbrev director : Mode → ℕ → RoundRobin ℕ
director mode next = record { mode = mode; hosts = hosts; nhosts = 3; next_host = next }

built :
    init_dir (none ∷ some 7 ∷ some 8 ∷ some 9 ∷ []) (1 ∷ 2 ∷ 3 ∷ []) round_robin
    ≡ some (director round_robin 0)
unfolding init_dir lookup_all
built = refl

skips : getfd up connect (director round_robin 1) 0 ≡ some (some 9, director round_robin 0, 1)
unfolding getfd getfd_loop return_or visit visit_if place advance
skips = refl

first : getfd up connect (director fallback 1) 0 ≡ some (some 7, director fallback 1, 1)
unfolding getfd getfd_loop return_or visit visit_if place advance
first = refl

getfd-attempt_example :
    getfd up connect (director round_robin 1) 0
    ≡ some (
      (attempt up connect (order (director round_robin 1)) 0).0,
      moved (director round_robin 1) (attempt up connect (order (director round_robin 1)) 0).1,
      (attempt up connect (order (director round_robin 1)) 0).2,
    )
getfd-attempt_example = getfd-attempt up connect (director round_robin 1) 0 (refl, omega arith)
