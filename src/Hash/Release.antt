-- ===== src/Hash/Release.antt =====
-- HSH_Unbusy and HSH_Deref in bin/varnishd/cache_hash.c: what they leave of the references.
use pkg_varnish.Prelude.{
  ℕ, ◌+◌, ◌-◌, ◌≤◌, ◌<◌, ◌≡◌, refl, ap, ◌∙◌, inl, inr, Bool, true, false, Option, none, some, ◌∷◌,
  arith, ltb, ◌==◌, Bool-cases, length, ◌>>=◌,
}
use pkg_varnish.Hash.{
  Objcore, Objhead, is_some, find_oc, update_oc, remove_oc, deref_oh, Rushed, getobj, give_up, rush,
  unbusy, drop_ref, release_oh, deref,
}
use pkg_varnish.Hash.Rush.{rush-length, rush-wakes}
use pkg_varnish.Hash.Counts.{
  IsOk, AllOk, length-update_oc, AllOk-update_oc, length-remove_oc, AllOk-remove_oc, find_oc-IsOk,
  find_oc-id,
}

module _ (queue_fails : ℕ → Bool) (rush_exponent : ℕ) where
  -- No session fails to be queued.
  abbrev pub NeverFails : Type 0
  NeverFails = (0 < rush_exponent) × ((sp : ℕ) → queue_fails sp ≡ false)

  -- What hsh_rush leaves: as many sessions are queued, dropped or waiting as were waiting, and as many
  -- references went as objcores did.
  abbrev pub IsReleased : Objhead → Rushed → Objhead → Type 0
  IsReleased oh r oh' =
      AllOk oh'.objcs
      × (length oh'.objcs + oh.refcnt ≡ length oh.objcs + oh'.refcnt)
      × (length r.queued + length r.dropped + length oh'.waitinglist ≡ length oh.waitinglist)
      × (NeverFails → 0 < length oh'.waitinglist → 0 < length r.queued)

  abbrev pub Released : Objhead → Option (Rushed × Objhead) → Type 0
  Released oh result =
      (r : Rushed) × (oh' : Objhead) × (result ≡ some (r, oh')) × IsReleased oh r oh'

  rush-IsReleased :
      (oh : Objhead)
      → AllOk oh.objcs
      → IsReleased oh (rush queue_fails rush_exponent oh).0 (rush queue_fails rush_exponent oh).1
  unfolding rush
  rush-IsReleased oh ok = (
    ok,
    omega arith,
    rush-length queue_fails rush_exponent oh,
    λ (some_rush, never) w. rush-wakes queue_fails rush_exponent oh some_rush never w,
  )

  pub unbusy-Released :
      (oh : Objhead) (id : ℕ) (oc : Objcore)
      → AllOk oh.objcs
      → 0 < oh.refcnt
      → find_oc oh.objcs id ≡ some oc
      → is_some oc.busyobj ≡ true
      → is_some oc.object ≡ true
      → Released oh (unbusy queue_fails rush_exponent false oh id)
  unfolding unbusy getobj
  unbusy-Released oh id oc ok held found b object =
      let (p, ready, shared, banned) = find_oc-IsOk oh.objcs id oc ok found in
      let idle : Objcore = record oc { busyobj = none } in
      let oh' : Objhead = record oh { objcs = idle ∷ remove_oc oh.objcs id } in
      let n = length-remove_oc oh.objcs id oc found in
      let held_oc : ltb 0 oc.refcnt ≡ true = ground arith in
      let held_oh : ltb 0 oh.refcnt ≡ true = ground arith in
      let (ok', m, q, wakes) =
        rush-IsReleased oh'
          ((p, (λ e. object), shared, λ h k. banned b k), AllOk-remove_oc oh.objcs id ok) in
      (
        (rush queue_fails rush_exponent oh').0,
        (rush queue_fails rush_exponent oh').1,
        rw (found, b, object, banned b object, held_oc, held_oh) refl,
        (ok', omega (arith, m, n), q, wakes),
      )

  release_oh-some :
      (oh : Objhead)
      → length oh.objcs < oh.refcnt
      → release_oh queue_fails rush_exponent oh ≡ some (record oh { refcnt = oh.refcnt - 1 })
  unfolding release_oh deref_oh
  release_oh-some oh counted = ground arith

  -- The references left by hsh_rush after the objcore was dropped, and then by the end of HSH_Deref.
  last-Released :
      (oh : Objhead) (id : ℕ) (oc : Objcore)
      → AllOk oh.objcs
      → length oh.objcs ≤ oh.refcnt
      → find_oc oh.objcs id ≡ some oc
      → let rushed = rush queue_fails rush_exponent (record oh { objcs = remove_oc oh.objcs id }) in
        Released oh
          (release_oh queue_fails rush_exponent rushed.1 >>= λ last. some (rushed.0, last))
  unfolding release_oh deref_oh rush
  last-Released oh id oc ok counted found =
      let oh' : Objhead = record oh { objcs = remove_oc oh.objcs id } in
      let n = length-remove_oc oh.objcs id oc found in
      let (ok', m, q, wakes) = rush-IsReleased oh' (AllOk-remove_oc oh.objcs id ok) in
      let left = (rush queue_fails rush_exponent oh').1 in
      (
        (rush queue_fails rush_exponent oh').0,
        record left { refcnt = left.refcnt - 1 },
        rw (release_oh-some left (omega (arith, n))) refl,
        (ok', omega (arith, n, m), q, wakes),
      )

  shared-Released :
      (oh : Objhead) (oc : Objcore)
      → AllOk oh.objcs
      → IsOk (record oc { refcnt = oc.refcnt - 1 })
      → let rushed =
          rush queue_fails rush_exponent
            (record oh { objcs = update_oc oh.objcs (record oc { refcnt = oc.refcnt - 1 }) }) in
        Released oh (some (rushed.0, rushed.1))
  unfolding rush
  shared-Released oh oc ok here =
      let new : Objcore = record oc { refcnt = oc.refcnt - 1 } in
      let oh' : Objhead = record oh { objcs = update_oc oh.objcs new } in
      let n = length-update_oc oh.objcs new in
      let (ok', m, q, wakes) = rush-IsReleased oh' (AllOk-update_oc oh.objcs new ok here) in
      (
        (rush queue_fails rush_exponent oh').0,
        (rush queue_fails rush_exponent oh').1,
        refl,
        (ok', omega (arith, m, n), q, wakes),
      )

  pub deref-Released :
      (oh : Objhead) (id : ℕ) (oc : Objcore)
      → AllOk oh.objcs
      → length oh.objcs ≤ oh.refcnt
      → find_oc oh.objcs id ≡ some oc
      → Released oh (deref queue_fails rush_exponent oh id)
  unfolding deref drop_ref give_up
  deref-Released oh id oc ok counted found =
      let (p, ready, shared, banned) = find_oc-IsOk oh.objcs id oc ok found in
      let here : find_oc oh.objcs oc.id ≡ some oc =
        ap (find_oc oh.objcs) (find_oc-id oh.objcs id oc found) ∙ found in
      let n = length-remove_oc oh.objcs id oc found in
      let held_oc : ltb 0 oc.refcnt ≡ true = ground arith in
      let held_oh : ltb 0 oh.refcnt ≡ true = ground arith in
      elim (Bool-cases (oc.refcnt - 1 == 0)) [
        | inl z ↦ rw (found, held_oh, held_oc, z) (last-Released oh oc.id oc ok counted here)
        | inr z ↦
            let more : 1 < oc.refcnt = ground arith in
            let object = shared more in
            rw (found, held_oh, held_oc, z, object)
              (shared-Released oh oc ok (omega (arith, more), ready, (λ h. object), banned))
      ]
