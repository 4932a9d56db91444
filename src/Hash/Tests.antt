-- ===== src/Hash/Tests.antt =====
-- Runs of bin/varnishd/cache_hash.c, and its theorems at an objhead where two sessions meet.
use pkg_varnish.Prelude.{ℕ, ◌<◌, ◌≡◌, refl, Bool, true, false, none, some, List, [], ◌∷◌, arith}
use pkg_varnish.Expire.{Exp, is_positive, limit, limit_span, after, of_session, exp_ttl}
use pkg_varnish.Vary.{byte}
use pkg_varnish.Vary.Create.{validate}
use pkg_varnish.Hash.{
  Object, Objcore, Objhead, Sess, update_oc, getobj, deref_oh, vary_ok, classify_object,
  classify_busy, classify_by, classify, note, pick, turn, scan, settle, hit_object, hit, use_oc,
  wait_on, insert_busy, lookup, acquire,
}
use pkg_varnish.Hash.Decide.{choice, decide, lookup-decide}
use pkg_varnish.Hash.Fresh.{HasUsable, lookup-hit}
use pkg_varnish.Hash.World.{
  Env, World, arrive, again, step, may_run, fresh, Reach, start, next, polls, looked_up,
  lookup_asserts, insert_asserts,
}
use pkg_varnish.Hash.Steps.{Inv, EnvNeverFails}
use pkg_varnish.Hash.Reach.{Reach-Inv, Reach-step, Reach-waiting}

abbrev no_limit : Exp
no_limit = record { ttl = none; grace = none; keep = none; age = 0; entered = 0 }

abbrev sess : ℕ → ℕ → Sess
sess id t_req = record {
  id = id;
  hash_ignore_busy = false;
  hash_always_miss = false;
  esi_level = 0;
  t_req = t_req;
  exp = no_limit;
  vary = none;
}

abbrev no_match : Sess → List ℕ → Bool
no_match sp vary = false

abbrev no_ban : Sess → Object → Bool
no_ban sp o = false

abbrev all_well : Sess → Bool
all_well sp = true

abbrev never : ℕ → Bool
never sp = false

abbrev env : Env
env = record {
  vry_match = no_match;
  ban_check = no_ban;
  vdi_healthy = all_well;
  default_grace = 10;
  queue_fails = never;
  rush_exponent = 3;
  objcore = λ sp. false;
  vary_b = λ sp. 0xff ∷ 0xff ∷ 0 ∷ [];
  busy_flag = true;
  nbusyobj = false;
}

abbrev object : Object
object = record {
  exp = record { ttl = some 100; grace = none; keep = none; age = 0; entered = 1000 };
  vary = none;
  hits = 0;
}

abbrev stored : Objcore
stored = record { id = 7; refcnt = 1; busyobj = none; object = some object; ban = true }

abbrev one_stored : Objhead
one_stored = record { refcnt = 2; objcs = stored ∷ []; waitinglist = [] }

abbrev served : Objcore
served = record stored { refcnt = 2; object = some (record object { hits = 1 }) }

abbrev after_hit : Objhead
after_hit = record { refcnt = 1; objcs = served ∷ []; waitinglist = [] }

lookup_fresh :
    lookup no_match no_ban all_well 10 one_stored (sess 1 1050) 8 ≡ some (hit served, after_hit)
unfolding lookup scan turn classify classify_by classify_object vary_ok is_positive exp_ttl limit
    limit_span of_session after settle pick use_oc getobj hit_object update_oc deref_oh
lookup_fresh = refl

-- A session that a second one waits for.
abbrev two_met : Objhead
two_met = record {
  refcnt = 2;
  objcs = record { id = 7; refcnt = 1; busyobj = some none; object = none; ban = false } ∷ [];
  waitinglist = 2 ∷ [];
}

lookup-decide_example :
    lookup no_match no_ban all_well 10 one_stored (sess 1 1105) 8
    ≡ decide no_match no_ban all_well 10 (sess 1 1105) one_stored 8
lookup-decide_example =
    lookup-decide no_match no_ban all_well 10 (sess 1 1105) one_stored 8 ((λ e. refl), _)
      (omega arith)

lookup-hit_example :
    (oc : Objcore) × (choice no_match no_ban all_well 10 (sess 1 1050) (stored ∷ []) ≡ some oc)
    × (7 ≡ oc.id)
    × (false ≡ false)
    × HasUsable no_match no_ban all_well 10 (sess 1 1050) oc
lookup-hit_example =
    lookup-hit no_match no_ban all_well 10 (sess 1 1050) one_stored after_hit 8 served
      ((λ e. refl), _) (omega arith) lookup_fresh

abbrev fetching : World
fetching = record {
  oh = record two_met { refcnt = 1; waitinglist = [] };
  returning = 0;
  dropped = 0;
}

abbrev waiting : World
waiting = record { oh = two_met; returning = 0; dropped = 0 }

first_misses : step env fresh (again (sess 1 1050) 7) ≡ some fetching
unfolding step looked_up lookup scan settle pick insert_busy polls lookup_asserts insert_asserts
    validate byte
first_misses = refl

second_waits : step env fetching (arrive (sess 2 1050) 8) ≡ some waiting
unfolding step looked_up lookup scan turn note classify classify_by classify_busy vary_ok settle
    pick wait_on polls acquire lookup_asserts insert_asserts
second_waits = refl

abbrev all_never : EnvNeverFails env
all_never = (omega arith, λ sp. refl)

two_meet : Reach EnvNeverFails waiting
unfolding may_run
two_meet =
    next env (arrive (sess 2 1050) 8) all_never
      (next env (again (sess 1 1050) 7) all_never start refl first_misses) refl second_waits

Reach-Inv_example : Inv waiting
Reach-Inv_example = Reach-Inv EnvNeverFails waiting two_meet

Reach-step_example : (w : World) × (step env waiting (arrive (sess 3 1050) 9) ≡ some w)
unfolding may_run validate byte
Reach-step_example =
    Reach-step EnvNeverFails env waiting (arrive (sess 3 1050) 9) two_meet refl (refl, refl, refl)

Reach-waiting_example : 0 < 1
Reach-waiting_example = Reach-waiting waiting two_meet (omega arith)
