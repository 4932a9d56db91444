-- ===== src/Hash/Reach.antt =====
-- bin/varnishd/cache_hash.c: what holds of an objhead whatever the sessions do.
use pkg_varnish.Prelude.{
  ◌+◌, ◌<◌, ◌≡◌, sym, ◌∙◌, true, Option, some, List, [], ◌∷◌, arith, length, inl, inr, refl,
}
use mathlib.Core.Path.{subst}
use pkg_varnish.Hash.World.{Env, World, Event, Brings, step, may_run, Reach, start, next}
use pkg_varnish.Hash.Steps.{Inv, IsAwake, EnvNeverFails, MaySteps, step-Steps}

some_inj : (v w : World) → some v ≡ some w → v ≡ w
some_inj v w e = cc

-- What holds of the outcome of `step` holds of the world that it leads to.
lands_on :
    (env : Env) (w : World) (e : Event) (result : Option World) (w' : World)
    → MaySteps env w e result
    → result ≡ some w'
    → Inv w' × (EnvNeverFails env → IsAwake w → IsAwake w')
lands_on env w e result w' (inl (lacks, failed)) e' = absurd (let z = sym failed ∙ e' in cc)
lands_on env w e result w' (inr (v, done, inv, awake)) e' =
    let same : v ≡ w' = some_inj v w' (sym done ∙ e') in
    (subst Inv same inv, subst (λ u. EnvNeverFails env → IsAwake w → IsAwake u) same awake)

-- Whatever sessions arrive, come back, fetch and release, whatever objects storage inserts, and
-- whatever Vary, the bans, the backends and the worker pools do: the references on the objhead are
-- those of its objcores and of the sessions that wait, will look up again or were dropped; and every
-- objcore is held, has an object unless it is busy, has one where several hold it, and has a ban while
-- it is busy with one.
pub Reach-Inv : (P : Env → Type 0) (w : World) → Reach P w → Inv w
Reach-Inv P w start = (_, refl)
Reach-Inv P w (next {w = v} env e p r may stepped) =
    (lands_on env v e (step env v e) w (step-Steps env v e (Reach-Inv P v r) may) stepped).0

-- In any world that is reached, no operation that the callers may ask for fails an assertion that is
-- modelled, where a session that looks up has no objcore and a valid vary string, the new objcore of
-- its worker is flagged as busy, and the worker of a session that unbusies its objcore has no busyobj
-- to spare.
pub Reach-step :
    (P : Env → Type 0) (env : Env) (w : World) (e : Event)
    → Reach P w
    → may_run w e ≡ true
    → Brings env e
    → (w' : World) × (step env w e ≡ some w')
Reach-step P env w e r may brings = elim (step-Steps env w e (Reach-Inv P w r) may) [
  | inl (lacks, failed) ↦ absurd (lacks brings)
  | inr (w', done, inv, awake) ↦ (w', done)
]

Reach-IsAwake : (w : World) → Reach EnvNeverFails w → IsAwake w
Reach-IsAwake w start = λ h. absurd (omega arith)
Reach-IsAwake w (next {w = v} env e p r may stepped) =
    let inv = Reach-Inv EnvNeverFails v r in
    (lands_on env v e (step env v e) w (step-Steps env v e inv may) stepped).1 p (Reach-IsAwake v r)

-- Where sessions are always queued, and `rush_exponent` is not 0, no session waits on an objhead
-- that has no objcore to be released and no session that will look up again.
pub Reach-waiting :
    (w : World)
    → Reach EnvNeverFails w
    → 0 < length w.oh.waitinglist
    → 0 < length w.oh.objcs + w.returning
Reach-waiting w r h = Reach-IsAwake w r h

-- An objhead is given up only with no objcore on it, no session that waits on it or will look up
-- there again, and none dropped: the reference of a session that hsh_rush could not queue keeps it.
pub Reach-freed :
    (P : Env → Type 0) (w : World)
    → Reach P w
    → w.oh.refcnt ≡ 0
    → (w.oh.objcs ≡ []) × (w.oh.waitinglist ≡ []) × (w.returning ≡ 0) × (w.dropped ≡ 0)
Reach-freed P w r z =
    let (ok, counted) = Reach-Inv P w r in
    (
      length-zero w.oh.objcs (omega arith),
      length-zero w.oh.waitinglist (omega arith),
      omega arith,
      omega arith,
    )
  where
    length-zero : {A : Type 0} → (xs : List A) → length xs ≡ 0 → xs ≡ []
    length-zero [] e = refl
    length-zero (x ∷ xs) e = absurd (omega arith)
