-- ===== src/Hash/Balance.antt =====
-- HSH_Lookup in bin/varnishd/cache_hash.c: which references a session gives up or takes.
use pkg_varnish.Prelude.{
  ℕ, ◌+◌, ◌-◌, ◌<◌, ◌≡◌, refl, sym, inl, inr, Bool, true, false, Option, none, some, List, [], ◌∷◌,
  arith, ltb, ◌==◌, if◌then◌else◌, Bool-cases, length, length-append,
}
use pkg_varnish.Hash.{
  Object, Objcore, Objhead, Sess, update_oc, deref_oh, hit_object, Outcome, hit, wait, miss, use_oc,
  wait_on, insert_busy, lookup,
}
use mathlib.Core.Path.{subst}
use pkg_varnish.Hash.Scan.{find_live, any_busy, best_grace}
use pkg_varnish.Hash.Decide.{choice, choice_or, other, decide, choose, lookup-decide}
use pkg_varnish.Hash.Fresh.{choice-HasUsable, getobj-ready}
use pkg_varnish.Hash.Counts.{AllOk, AllOk-AllReady, AllOk-append, length-update_oc, AllOk-update_oc}
use pkg_varnish.Hash.World.{polls}

-- The references that a lookup leaves: all objcores are in order, there is one, and each reference
-- taken or given up is that of an objcore or of a session that waits or will look up again.
abbrev pub IsBalanced : Objhead → Sess → Outcome → Objhead → Type 0
IsBalanced oh sp out oh' =
    AllOk oh'.objcs
    × (0 < length oh'.objcs)
    × (oh'.refcnt + length oh.objcs + length oh.waitinglist + 1
        ≡ oh.refcnt + length oh'.objcs + length oh'.waitinglist + polls sp out)

abbrev pub Balanced : Objhead → Sess → Option (Outcome × Objhead) → Type 0
Balanced oh sp r =
    (out : Outcome) × (oh' : Objhead) × (r ≡ some (out, oh')) × IsBalanced oh sp out oh'

insert_busy-IsBalanced :
    (oh : Objhead) (sp : Sess) (nobjcore : ℕ)
    → AllOk oh.objcs
    → IsBalanced oh sp miss (insert_busy oh sp nobjcore)
unfolding insert_busy polls
insert_busy-IsBalanced oh sp nobjcore ok =
    let oc : Objcore = record {
      id = nobjcore;
      refcnt = 1;
      busyobj = some sp.vary;
      object = none;
      ban = false;
    } in
    let n = length-append oh.objcs (oc ∷ []) in
    (
      AllOk-append oh.objcs oc ok (omega arith, (λ e. cc), (λ h. absurd (omega arith)), λ b h. cc),
      omega (arith, n),
      omega (arith, n),
    )

wait_on-IsBalanced :
    (oh : Objhead) (sp : Sess)
    → AllOk oh.objcs
    → 0 < length oh.objcs
    → IsBalanced oh sp wait (wait_on oh sp)
unfolding wait_on polls
wait_on-IsBalanced oh sp ok some_oc = elim (Bool-cases (sp.esi_level == 0)) [
  | inl z ↦ rw z (ok, some_oc, omega (arith, length-append oh.waitinglist (sp.id ∷ [])))
  | inr z ↦ rw z (ok, some_oc, omega arith)
]

use_oc-Balanced :
    (oh : Objhead) (sp : Sess) (oc : Objcore) (o : Object)
    → AllOk oh.objcs
    → 0 < length oh.objcs
    → length oh.objcs < oh.refcnt
    → oc.busyobj ≡ none
    → oc.object ≡ some o
    → Balanced oh sp (use_oc oh oc)
unfolding use_oc deref_oh polls
use_oc-Balanced oh sp oc o ok some_oc counted b e =
    let used : Objcore = record oc { refcnt = oc.refcnt + 1; object = some (hit_object o) } in
    let oh' : Objhead = record oh { refcnt = oh.refcnt - 1; objcs = update_oc oh.objcs used } in
    let n = length-update_oc oh.objcs used in
    let held : ltb 1 oh.refcnt ≡ true = ground arith in
    let left : (oh.refcnt - 1 == 0) ≡ false = ground arith in
    (
      hit used,
      oh',
      rw (getobj-ready oc o b e, held, left) refl,
      (
        AllOk-update_oc oh.objcs used ok
            (omega arith, (λ h. refl), (λ h. refl), λ h k. absurd (let z = rw b at h in cc)),
        omega (arith, n),
        omega (arith, n),
      ),
    )

module _ (vry_match : Sess → List ℕ → Bool) (ban_check : Sess → Object → Bool)
    (vdi_healthy : Sess → Bool) (default_grace : ℕ) (sp : Sess) where
  choice-some :
      (ocs : List Objcore) (oc : Objcore)
      → choice vry_match ban_check vdi_healthy default_grace sp ocs ≡ some oc
      → 0 < length ocs
  unfolding choice choice_or other find_live best_grace any_busy
  choice-some [] oc e = ground arith
  choice-some (x ∷ ocs) oc e = omega arith

  any_busy-some :
      (ocs : List Objcore)
      → any_busy vry_match ban_check vdi_healthy default_grace sp ocs ≡ true
      → 0 < length ocs
  unfolding any_busy
  any_busy-some [] e = cc
  any_busy-some (x ∷ ocs) e = omega arith

  choose-Balanced :
      (oh : Objhead) (nobjcore : ℕ) (c : Option Objcore)
      → choice vry_match ban_check vdi_healthy default_grace sp oh.objcs ≡ c
      → AllOk oh.objcs
      → length oh.objcs < oh.refcnt
      → Balanced oh sp (choose vry_match ban_check vdi_healthy default_grace sp oh nobjcore c)
  unfolding choose
  choose-Balanced oh nobjcore (some oc) f ok counted =
      let (o, b, object, u) =
        choice-HasUsable vry_match ban_check vdi_healthy default_grace sp oh.objcs oc f in
      use_oc-Balanced oh sp oc o ok (choice-some oh.objcs oc f) counted b object
  choose-Balanced oh nobjcore none f ok counted =
      elim (Bool-cases (any_busy vry_match ban_check vdi_healthy default_grace sp oh.objcs)) [
        | inl b ↦
            rw b (wait, wait_on oh sp, refl, wait_on-IsBalanced oh sp ok (any_busy-some oh.objcs b))
        | inr b ↦
            rw b (miss, insert_busy oh sp nobjcore, refl, insert_busy-IsBalanced oh sp nobjcore ok)
      ]

  pub lookup-Balanced :
      (oh : Objhead) (nobjcore : ℕ)
      → AllOk oh.objcs
      → length oh.objcs < oh.refcnt
      → Balanced oh sp (lookup vry_match ban_check vdi_healthy default_grace oh sp nobjcore)
  unfolding decide
  lookup-Balanced oh nobjcore ok counted =
      let ready = AllOk-AllReady oh.objcs ok in
      subst (Balanced oh sp)
        (sym (
          lookup-decide vry_match ban_check vdi_healthy default_grace sp oh nobjcore ready counted))
        (by_test sp.hash_always_miss)
    where
      by_test :
          (m : Bool)
          → Balanced oh sp (
              if m
              then some (miss, insert_busy oh sp nobjcore)
              else choose vry_match ban_check vdi_healthy default_grace sp oh nobjcore
                  (choice vry_match ban_check vdi_healthy default_grace sp oh.objcs))
      by_test true =
          (miss, insert_busy oh sp nobjcore, refl, insert_busy-IsBalanced oh sp nobjcore ok)
      by_test false =
          choose-Balanced oh nobjcore
            (choice vry_match ban_check vdi_healthy default_grace sp oh.objcs) refl ok counted
