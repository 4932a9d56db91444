-- ===== src/Expire/Tests.antt =====
-- Runs of bin/varnishd/cache_expire.c, and its theorems at an object with a session's limit.
use pkg_varnish.Prelude.{
  ℕ, ◌≡◌, refl, ◌↔◌, ◌⊎◌, true, not, Option, none, some, [], ◌∷◌, arith, ◌==◌, if◌then◌else◌,
}
use pkg_varnish.Prelude.Tailq.{count}
use pkg_varnish.Expire.{
  Exp, clr, is_positive, get_or, get_keep, set_grace, set_keep, limit, limit_span, after,
  of_session, exp_ttl, or_default, exp_grace, object_when,
}
use pkg_varnish.Binheap.{parent, root}
use pkg_varnish.Binheap.Pages.{tree_512}
use pkg_varnish.Expire.Listed.{IsStore}
use pkg_varnish.Expire.Store.{Store, Timed, timer_turn, nuke_one, rearm}
use pkg_varnish.Binheap.Operations.{IsMember}
use pkg_varnish.Expire.Turns.{IsTurn, timer_turn-IsTurn}
use pkg_varnish.Expire.Nuke.{IsUnused, Leaves, nuke_one-IsUnused}
use pkg_varnish.Expire.Rearm.{rearm-IsStore}

abbrev object : Exp
object = record { ttl = some 120; grace = none; keep = some 0; age = 0; entered = 2_000_000 }

abbrev session : Exp
session = record { ttl = some 50; grace = some 7; keep = none; age = 0; entered = 0 }

-- Cut to the session's limits.
short : exp_grace 10 30 (some session) object ≡ 2_000_057
unfolding exp_grace exp_ttl limit limit_span of_session after or_default
short = refl

-- Not set: a second before the entry.
unset : exp_ttl none (set_grace (record clr { entered = 3_000_000 }) (some 5)) ≡ 2_000_000
unfolding exp_ttl limit_span of_session after clr set_grace is_positive
unset = refl

kept : get_keep (set_keep object (some 9)) ≡ some 9
unfolding get_keep set_keep get_or is_positive
kept = refl

-- The objects 3, due at 1000, and 7, which is busy, on the one list.
abbrev two_objects : Store
two_objects = record {
  heap = record {
    cells = λ u. if u == 1 then 3 else (if u == 2 then 7 else 0);
    index = λ p. if p == 3 then 1 else (if p == 7 then 2 else 0);
    row = λ r. r == 0;
    rows = 16;
    length = 65_536;
    next = 3;
    page_size = 512;
  };
  lru = λ l. if l == 0 then 7 ∷ 3 ∷ [] else [];
  timer_when = λ oc. if oc == 3 then 1_000 else 2_000;
  last_lru = λ oc. 0;
  refcnt = λ oc. 1;
  busy = λ oc. not (oc == 3);
  n_lru_moved = 0;
  n_expired = 0;
  n_lru_nuked = 0;
}

abbrev one_list : ℕ → ℕ
one_list oc = 0

two_objects-IsStore : IsStore one_list 512 tree_512 two_objects
unfolding root parent count
two_objects-IsStore = (
  (
    refl,
    (λ u h l. ground arith, λ p h. ground arith),
    λ w h l. ground arith,
    (refl, omega arith, omega arith, λ r. ground arith),
    omega arith,
    omega arith,
    λ e. omega arith,
  ),
  λ oc l. ground arith,
)

timer_turn-IsTurn_example :
    (what : Timed) × (t' : ℕ) × (st' : Store) × (timer_turn one_list true two_objects 900 1_100
      ≡ some (what, t', st'))
    × ((t' ≡ 900) ⊎ (t' ≡ 1_100))
    × IsStore one_list 512 tree_512 st'
    × IsTurn true two_objects t' st' what
timer_turn-IsTurn_example =
    timer_turn-IsTurn one_list 512 tree_512 true two_objects 900 1_100 two_objects-IsStore
      (omega arith)

nuke_one-IsUnused_example :
    (found : Option ℕ) × (st' : Store) × (nuke_one two_objects 0 ≡ some (found, st'))
    × IsStore one_list 512 tree_512 st'
    × IsUnused two_objects (7 ∷ 3 ∷ []) found
    × Leaves two_objects st' found
nuke_one-IsUnused_example =
    nuke_one-IsUnused one_list 512 tree_512 two_objects 0 two_objects-IsStore (omega arith)

rearm-IsStore_example :
    (st' : Store) × (rearm one_list 10 30 two_objects 7 object ≡ some st')
    × IsStore one_list 512 tree_512 st'
    × ((q : ℕ) → IsMember st'.heap q ↔ IsMember two_objects.heap q)
    × ((two_objects.heap.index 7 ≡ 0) ⊎ (st'.timer_when 7 ≡ object_when 10 30 object))
rearm-IsStore_example =
    rearm-IsStore one_list 512 tree_512 10 30 two_objects 7 object two_objects-IsStore (omega arith)
