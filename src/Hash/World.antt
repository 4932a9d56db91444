-- ===== src/Hash/World.antt =====
-- bin/varnishd/cache_hash.c: one objhead and the references on it, as sessions come and go.
use pkg_varnish.Prelude.{
  ℕ, ◌+◌, ◌-◌, ◌≡◌, Bool, true, false, ◌&&◌, Option, none, some, List, [], ltb, ◌==◌, if◌then◌else◌,
  length, ◌>>=◌, ◌>>◌, assert, not,
}
use pkg_varnish.Vary.Create.{validate}
use pkg_varnish.Hash.{
  Object, Objcore, Objhead, Sess, is_some, find_oc, update_oc, Outcome, hit, wait, miss, lookup,
  acquire, insert_ready, Rushed, unbusy, ref, deref,
}

-- What the code relies on for one operation. It may differ from one to the next. The last four are
-- read by assertions: whether the session has an objcore, the bytes at its `vary_b`, whether the
-- worker's new objcore is flagged as busy, and whether the worker has a busyobj to spare.
pub record Env : Type 0 where
  pub vry_match : Sess → List ℕ → Bool
  pub ban_check : Sess → Object → Bool
  pub vdi_healthy : Sess → Bool
  pub default_grace : ℕ
  pub queue_fails : ℕ → Bool
  pub rush_exponent : ℕ
  pub objcore : Sess → Bool
  pub vary_b : Sess → List ℕ
  pub busy_flag : Bool
  pub nbusyobj : Bool

-- `returning` is how many sessions hold a reference on the objhead and will look up again: those that
-- hsh_rush queued, and those of an include that wait. `dropped` is how many it could not queue.
pub record World : Type 0 where
  pub oh : Objhead
  pub returning : ℕ
  pub dropped : ℕ

-- The session that looks up, or the objcore that is used, with the address of a new objcore or the
-- object that is made.
pub data Event : Type 0 where
  arrive again : Sess → ℕ → Event
  fetched inserted : ℕ → Object → Event
  unbusied reffed dereffed : ℕ → Event

-- A session of an include that waits holds its reference and looks up again by itself.
unfoldable pub polls : Sess → Outcome → ℕ
polls sp (hit oc) = 0
polls sp miss = 0
polls sp wait = if sp.esi_level == 0 then 0 else 1

-- The assertions of HSH_Lookup where a busy objcore goes in: AN(oc->flags & OC_F_BUSY), and those of
-- VRY_Validate.
unfoldable pub insert_asserts : Env → Sess → Outcome → Option (Unit {0})
insert_asserts env sp (hit oc) = some tt
insert_asserts env sp wait = some tt
insert_asserts env sp miss =
    assert env.busy_flag >> validate (length (env.vary_b sp)) (env.vary_b sp)

-- Those on the session, AZ(sp->objcore) first.
unfoldable pub lookup_asserts : Env → Sess → Outcome → Option (Unit {0})
lookup_asserts env sp out = assert (not (env.objcore sp)) >> insert_asserts env sp out

unfoldable pub looked_up : World → ℕ → Sess → Outcome × Objhead → World
unfolding polls
looked_up w returning sp (out, oh) = record w { oh = oh; returning = returning + polls sp out }

unfoldable pub rushed : World → Rushed × Objhead → World
rushed w (r, oh) = record {
  oh = oh;
  returning = w.returning + length r.queued;
  dropped = w.dropped + length r.dropped;
}

-- The object is made for the busy objcore, and BAN_NewObjCore called, between HSH_Lookup and
-- HSH_Unbusy.
unfoldable pub put_object : Objhead → Object → Objcore → Objhead
put_object oh o oc = record oh {
  objcs = update_oc oh.objcs (record oc { object = some o; ban = true });
}

-- An operation. `none` is an assertion that fails, or an objcore that is not there.
unfoldable pub step : Env → World → Event → Option World
unfolding looked_up rushed put_object lookup_asserts
step env w (arrive sp nobjcore) = do
  r ←
      lookup env.vry_match env.ban_check env.vdi_healthy env.default_grace (acquire w.oh) sp
        nobjcore
  lookup_asserts env sp r.0
  some (looked_up w w.returning sp r)
step env w (again sp nobjcore) = do
  r ← lookup env.vry_match env.ban_check env.vdi_healthy env.default_grace w.oh sp nobjcore
  lookup_asserts env sp r.0
  some (looked_up w (w.returning - 1) sp r)
step env w (fetched id o) = do
  oc ← find_oc w.oh.objcs id
  some record w { oh = put_object w.oh o oc }
step env w (inserted id o) = do oh ← insert_ready (acquire w.oh) id o; some record w { oh = oh }
step env w (unbusied id) = do
  r ← unbusy env.queue_fails env.rush_exponent env.nbusyobj w.oh id
  some (rushed w r)
step env w (reffed id) = do
  oh ← ref env.queue_fails env.rush_exponent w.oh id
  some record w { oh = oh }
step env w (dereffed id) = do r ← deref env.queue_fails env.rush_exponent w.oh id; some (rushed w r)

abbrev pub BringsSess : Env → Sess → Type 0
BringsSess env sp =
    (env.objcore sp ≡ false)
    × (env.busy_flag ≡ true)
    × (validate (length (env.vary_b sp)) (env.vary_b sp) ≡ some tt)

-- What the worker and the session bring: for a lookup, a session without an objcore and with a valid
-- vary string, and a new objcore flagged as busy; to unbusy, a worker that has no busyobj to spare.
abbrev pub Brings : Env → Event → Type 0
Brings env (arrive sp nobjcore) = BringsSess env sp
Brings env (again sp nobjcore) = BringsSess env sp
Brings env (fetched id o) = Unit {0}
Brings env (inserted id o) = Unit {0}
Brings env (unbusied id) = env.nbusyobj ≡ false
Brings env (reffed id) = Unit {0}
Brings env (dereffed id) = Unit {0}

abbrev pub holds : (Objcore → Bool) → Option Objcore → Bool
holds test none = false
holds test (some oc) = test oc

-- Whether the callers may ask for it: a session looks up again only when it holds a reference, an
-- object is made for a busy objcore, one is unbusied that has its object, and one is shared that has.
unfoldable pub may_run : World → Event → Bool
may_run w (arrive sp nobjcore) = ltb 0 w.oh.refcnt
may_run w (again sp nobjcore) = ltb 0 w.returning
may_run w (fetched id o) = holds (λ oc. is_some oc.busyobj) (find_oc w.oh.objcs id)
may_run w (inserted id o) = ltb 0 w.oh.refcnt
may_run w (unbusied id) =
    holds (λ oc. is_some oc.busyobj && is_some oc.object) (find_oc w.oh.objcs id)
may_run w (reffed id) = holds (λ oc. is_some oc.object) (find_oc w.oh.objcs id)
may_run w (dereffed id) = is_some (find_oc w.oh.objcs id)

-- As hash->lookup makes it for the first session.
abbrev pub fresh : World
fresh = record {
  oh = record { refcnt = 1; objcs = []; waitinglist = [] };
  returning = 1;
  dropped = 0;
}

-- The worlds that operations lead to, in environments of this kind.
pub data Reach (P : Env → Type 0) : World → Type 0 where
  start : Reach P fresh
  next :
      {w w' : World} (env : Env) (e : Event)
      → P env
      → Reach P w
      → may_run w e ≡ true
      → step env w e ≡ some w'
      → Reach P w'
