-- ===== src/RoundRobin.antt =====
-- bin/varnishd/cache_dir_round_robin.c: the round-robin and the fallback director.
-- What VDI_Healthy and VDI_GetFd of another director answer, and what they change in the state `W`
-- that the directors share, are arguments.
pub mod Trail
pub mod Attempts
pub mod Health
pub mod Tests
use pkg_varnish.Prelude.{
  ℕ, zero, suc, ◌+◌, ◌-◌, ◌*◌, ◌/◌, ◌%◌, ◌^◌, ◌≤◌, ◌<◌, ◌≡◌, refl, sym, ap, ◌∙◌, ◌≢◌, ◌↔◌, ◌⊎◌, inl,
  inr, Bool, true, false, not, ◌&&◌, ◌||◌, Option, none, some, List, [], ◌∷◌, ◌++◌, arith, ltb, leb,
  ◌==◌, if◌then◌else◌, ltb→lt, leb→le, ==_iff, Bool-cases, Option-cases, length, get_elem?, set,
  take, drop, length-append, take-nil, take_all, length-take_le, ◌>>=◌, ◌>>◌, assert,
}

pub data Mode : Type 0 where
  round_robin fallback : Mode

pub record RoundRobin (B : Type 0) : Type 0 where
  pub mode : Mode
  pub hosts : List B
  pub nhosts : ℕ
  pub next_host : ℕ

module _ {B : Type 0} where
  -- `vs->hosts[..]` of round `i`.
  pub place : RoundRobin B → Mode → ℕ → ℕ
  place vs round_robin i = vs.next_host
  place vs fallback i = i

  pub advance : RoundRobin B → Mode → RoundRobin B
  advance vs round_robin = record vs { next_host = (vs.next_host + 1) % vs.nhosts }
  advance vs fallback = vs

  -- A director is not in the table where the VCL compiler did not put it.
  lookup_all : List (Option B) → List ℕ → Option (List B)
  lookup_all bp [] = some []
  lookup_all bp (host ∷ members) = do
    entry ← get_elem? bp host
    backend ← entry
    hosts ← lookup_all bp members
    some (backend ∷ hosts)

  -- `members` are the places of the hosts in the table `bp` of directors.
  pub init_dir : List (Option B) → List ℕ → Mode → Option (RoundRobin B)
  init_dir bp members mode = do
    hosts ← lookup_all bp members
    some record { mode = mode; hosts = hosts; nhosts = length members; next_host = 0 }

module _ {W B C : Type 0} (vdi_healthy : B → W → Bool × W) (vdi_getfd : B → W → Option C × W) where
  visit_if : B → Bool × W → Option C × W
  visit_if backend (false, w) = (none, w)
  visit_if backend (true, w) = vdi_getfd backend w

  pub visit : B → W → Option C × W
  visit backend w = visit_if backend (vdi_healthy backend w)

  return_or :
      RoundRobin B
      → (W → Option (Option C × RoundRobin B × W))
      → Option C × W
      → Option (Option C × RoundRobin B × W)
  return_or vs again (some vbe, w) = some (some vbe, vs, w)
  return_or vs again (none, w) = again w

  -- The loop with so many rounds left; `none` is an access outside of `hosts`.
  getfd_loop : ℕ → RoundRobin B → W → Option (Option C × RoundRobin B × W)
  getfd_loop zero vs w = some (none, vs, w)
  getfd_loop (suc left) vs w = do
    backend ← get_elem? vs.hosts (place vs vs.mode (vs.nhosts - suc left))
    return_or (advance vs vs.mode) (getfd_loop left (advance vs vs.mode)) (visit backend w)

  pub getfd : RoundRobin B → W → Option (Option C × RoundRobin B × W)
  getfd vs w = getfd_loop vs.nhosts vs w

module _ {W B : Type 0} (vdi_healthy : B → W → Bool × W) where
  or_healthy : (W → Option (Bool × W)) → Bool × W → Option (Bool × W)
  or_healthy again (true, w) = some (true, w)
  or_healthy again (false, w) = again w

  healthy_loop : ℕ → RoundRobin B → W → Option (Bool × W)
  healthy_loop zero vs w = some (false, w)
  healthy_loop (suc left) vs w = do
    backend ← get_elem? vs.hosts (vs.nhosts - suc left)
    or_healthy (healthy_loop left vs) (vdi_healthy backend w)

  pub healthy : RoundRobin B → W → Option (Bool × W)
  healthy vs w = healthy_loop vs.nhosts vs w
