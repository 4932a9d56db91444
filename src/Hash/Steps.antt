-- ===== src/Hash/Steps.antt =====
-- bin/varnishd/cache_hash.c: what an operation on an objhead leaves of the references on it.
use pkg_varnish.Prelude.{
  ℕ, ◌+◌, ◌-◌, ◌<◌, ◌≡◌, sym, ◌∙◌, true, ◌&&◌, Option, none, some, ◌∷◌, arith, ltb, ltb→lt, length,
  ◌>>=◌, ◌>>◌, ◌⊎◌, inl, inr, false, refl, Bool-cases, Option-cases,
}
use pkg_varnish.Hash.{
  Object, Objcore, Objhead, Sess, is_some, find_oc, update_oc, Outcome, hit, wait, miss, lookup,
  acquire, insert_ready, Rushed, unbusy, ref, deref,
}
use pkg_varnish.Hash.Counts.{
  IsOk, AllOk, length-update_oc, length-remove_oc, AllOk-update_oc, find_oc-IsOk,
}
use pkg_varnish.Hash.Balance.{Balanced, lookup-Balanced}
use pkg_varnish.Hash.Release.{NeverFails, Released, unbusy-Released, deref-Released}
use pkg_varnish.Hash.World.{
  Env, World, Event, arrive, again, fetched, inserted, unbusied, reffed, dereffed, polls, looked_up,
  rushed, lookup_asserts, insert_asserts, BringsSess, Brings, put_object, step, holds, may_run,
}

-- Each reference on the objhead is that of an objcore, of a session that waits or will look up
-- again, or of one that was dropped.
abbrev pub IsCounted : World → Type 0
IsCounted w = w.oh.refcnt ≡ length w.oh.objcs + length w.oh.waitinglist + w.returning + w.dropped

abbrev pub Inv : World → Type 0
Inv w = AllOk w.oh.objcs × IsCounted w

-- Somebody is left who will rush the waiting list.
abbrev pub IsAwake : World → Type 0
IsAwake w = 0 < length w.oh.waitinglist → 0 < length w.oh.objcs + w.returning

abbrev pub EnvNeverFails : Env → Type 0
EnvNeverFails env = NeverFails env.queue_fails env.rush_exponent

abbrev pub Steps : Env → World → Option World → Type 0
Steps env w result =
    (w' : World) × (result ≡ some w') × Inv w' × (EnvNeverFails env → IsAwake w → IsAwake w')

-- So much, where it is brought that no assertion on the worker and the session fails.
abbrev pub MaySteps : Env → World → Event → Option World → Type 0
MaySteps env w e result = (¬ (Brings env e) × (result ≡ none)) ⊎ Steps env w result

refused :
    (env : Env) (sp : Sess) (out : Outcome)
    → lookup_asserts env sp out ≡ none
    → ¬ (BringsSess env sp)
unfolding lookup_asserts insert_asserts
refused env sp (hit oc) e (no_objcore, flagged, valid) = let z = rw no_objcore at e in cc
refused env sp wait e (no_objcore, flagged, valid) = let z = rw no_objcore at e in cc
refused env sp miss e (no_objcore, flagged, valid) =
    let z = rw (no_objcore, flagged, valid) at e in cc

-- A lookup, behind its assertions on the session.
asserted :
    (env : Env) (w : World) (sp : Sess) (returning : ℕ) (r : Option (Outcome × Objhead))
    → Steps env w (r >>= λ x. some (looked_up w returning sp x))
    → (¬ (BringsSess env sp)
        × ((r >>= λ x. lookup_asserts env sp x.0 >> some (looked_up w returning sp x)) ≡ none))
      ⊎ Steps env w (r >>= λ x. lookup_asserts env sp x.0 >> some (looked_up w returning sp x))
asserted env w sp returning none s = inr s
asserted env w sp returning (some (out, oh)) s = elim (Option-cases (lookup_asserts env sp out)) [
  | inl fails ↦ inl (refused env sp out fails, rw fails refl)
  | inr (u, ok) ↦ inr (rw ok s)
]

looked_up-Steps :
    (env : Env) (w : World) (oh : Objhead) (sp : Sess) (returning : ℕ)
    (r : Option (Outcome × Objhead))
    → Balanced oh sp r
    → oh.refcnt ≡ length oh.objcs + length oh.waitinglist + returning + w.dropped + 1
    → Steps env w (r >>= λ x. some (looked_up w returning sp x))
unfolding looked_up
looked_up-Steps env w oh sp returning r (out, oh', e, (ok, some_oc, balance)) counted = (
  record w { oh = oh'; returning = returning + polls sp out },
  rw e refl,
  (ok, omega arith),
  λ n a h. omega arith,
)

rushed-Steps :
    (env : Env) (w : World) (r : Option (Rushed × Objhead))
    → Inv w
    → Released env.queue_fails env.rush_exponent w.oh r
    → Steps env w (r >>= λ x. some (rushed w x))
unfolding rushed
rushed-Steps env w result (_, counted) (r, oh', e, (ok, less, waiting, wakes)) = (
  record {
    oh = oh';
    returning = w.returning + length r.queued;
    dropped = w.dropped + length r.dropped;
  },
  rw e refl,
  (ok, omega arith),
  λ n a h. omega (arith, wakes n h),
)

update_oc-Steps :
    (env : Env) (w : World) (new : Objcore)
    → Inv w
    → IsOk new
    → Steps env w (some (record w { oh = record w.oh { objcs = update_oc w.oh.objcs new } }))
update_oc-Steps env w new (ok, counted) here =
    let n = length-update_oc w.oh.objcs new in
    (
      record w { oh = record w.oh { objcs = update_oc w.oh.objcs new } },
      refl,
      (AllOk-update_oc w.oh.objcs new ok here, omega (arith, n)),
      λ f a h. omega (arith, a h, n),
    )

fetched-Steps :
    (env : Env) (w : World) (id : ℕ) (o : Object) (found : Option Objcore)
    → find_oc w.oh.objcs id ≡ found
    → Inv w
    → holds (λ oc. is_some oc.busyobj) found ≡ true
    → Steps env w (found >>= λ oc. some record w { oh = put_object w.oh o oc })
unfolding put_object
fetched-Steps env w id o none e inv may = cc
fetched-Steps env w id o (some oc) e inv may =
    update_oc-Steps env w (record oc { object = some o; ban = true }) inv
      ((find_oc-IsOk w.oh.objcs id oc inv.0 e).0, (λ h. refl), (λ h. refl), λ h k. refl)

-- HSH_Unbusy fails an assertion where the worker has a busyobj to spare.
never_unbusied :
    (env : Env) (w : World) (id : ℕ)
    → (unbusy env.queue_fails env.rush_exponent true w.oh id >>= λ r. some (rushed w r)) ≡ none
unfolding unbusy
never_unbusied env w id = elim (Option-cases (find_oc w.oh.objcs id)) [
  | inl e ↦ rw e refl
  | inr (oc, e) ↦ rw e (ground arith)
]

unbusied-Steps :
    (env : Env) (w : World) (id : ℕ) (found : Option Objcore)
    → find_oc w.oh.objcs id ≡ found
    → Inv w
    → holds (λ oc. is_some oc.busyobj && is_some oc.object) found ≡ true
    → MaySteps env w (unbusied id) (step env w (unbusied id))
unfolding step
unbusied-Steps env w id none e inv may = cc
unbusied-Steps env w id (some oc) e inv may =
    let n = length-remove_oc w.oh.objcs id oc e in
    elim (Bool-cases env.nbusyobj) [
      | inl spare ↦
          inl ((λ brings. let z = sym brings ∙ spare in cc), rw spare (never_unbusied env w id))
      | inr no_spare ↦ inr (
          rw no_spare (
            rushed-Steps env w (unbusy env.queue_fails env.rush_exponent false w.oh id) inv (
              unbusy-Released env.queue_fails env.rush_exponent w.oh id oc inv.0
                (omega (arith, n, inv.1)) e (ground arith) (ground arith))))
    ]

reffed-Steps :
    (env : Env) (w : World) (id : ℕ) (found : Option Objcore)
    → find_oc w.oh.objcs id ≡ found
    → Inv w
    → holds (λ oc. is_some oc.object) found ≡ true
    → Steps env w (step env w (reffed id))
unfolding step ref
reffed-Steps env w id none e inv may = cc
reffed-Steps env w id (some oc) e inv may =
    let (p, ready, shared, banned) = find_oc-IsOk w.oh.objcs id oc inv.0 e in
    let held : ltb 0 oc.refcnt ≡ true = ground arith in
    rw (e, held)
      (update_oc-Steps env w (record oc { refcnt = oc.refcnt + 1 }) inv
        (omega arith, ready, (λ h. may), banned))

dereffed-Steps :
    (env : Env) (w : World) (id : ℕ) (found : Option Objcore)
    → find_oc w.oh.objcs id ≡ found
    → Inv w
    → is_some found ≡ true
    → Steps env w (step env w (dereffed id))
unfolding step
dereffed-Steps env w id none e inv may = cc
dereffed-Steps env w id (some oc) e inv may =
    rushed-Steps env w (deref env.queue_fails env.rush_exponent w.oh id) inv
      (deref-Released env.queue_fails env.rush_exponent w.oh id oc inv.0 (omega (arith, inv.1)) e)

inserted-Steps :
    (env : Env) (w : World) (id : ℕ) (o : Object)
    → Inv w
    → ltb 0 w.oh.refcnt ≡ true
    → Steps env w (step env w (inserted id o))
unfolding step acquire insert_ready
inserted-Steps env w id o (ok, counted) may =
    let oc : Objcore = record {
      id = id;
      refcnt = 1;
      busyobj = none;
      object = some o;
      ban = true;
    } in
    let oh : Objhead = record w.oh { refcnt = w.oh.refcnt + 1; objcs = oc ∷ w.oh.objcs } in
    let held : ltb 0 (w.oh.refcnt + 1) ≡ true = ground arith in
    (
      record w { oh = oh },
      rw held refl,
      (((omega arith, (λ e. refl), (λ h. refl), λ h k. refl), ok), omega arith),
      λ n a h. omega arith,
    )

pub step-Steps :
    (env : Env) (w : World) (e : Event)
    → Inv w
    → may_run w e ≡ true
    → MaySteps env w e (step env w e)
unfolding step may_run acquire
step-Steps env w (arrive sp nobjcore) (ok, counted) may =
    let r =
      lookup env.vry_match env.ban_check env.vdi_healthy env.default_grace (acquire w.oh) sp
        nobjcore in
    asserted env w sp w.returning r (
      looked_up-Steps env w (acquire w.oh) sp w.returning r
        (lookup-Balanced env.vry_match env.ban_check env.vdi_healthy env.default_grace sp
          (acquire w.oh) nobjcore ok (omega arith))
        (omega arith))
step-Steps env w (again sp nobjcore) (ok, counted) may =
    let held : 0 < w.returning = ltb→lt 0 w.returning may in
    let r = lookup env.vry_match env.ban_check env.vdi_healthy env.default_grace w.oh sp nobjcore in
    asserted env w sp (w.returning - 1) r (
      looked_up-Steps env w w.oh sp (w.returning - 1) r
        (lookup-Balanced env.vry_match env.ban_check env.vdi_healthy env.default_grace sp w.oh
          nobjcore ok (omega arith))
        (omega arith))
step-Steps env w (fetched id o) inv may =
    inr (fetched-Steps env w id o (find_oc w.oh.objcs id) refl inv may)
step-Steps env w (inserted id o) inv may = inr (inserted-Steps env w id o inv may)
step-Steps env w (unbusied id) inv may =
    unbusied-Steps env w id (find_oc w.oh.objcs id) refl inv may
step-Steps env w (reffed id) inv may =
    inr (reffed-Steps env w id (find_oc w.oh.objcs id) refl inv may)
step-Steps env w (dereffed id) inv may =
    inr (dereffed-Steps env w id (find_oc w.oh.objcs id) refl inv may)
