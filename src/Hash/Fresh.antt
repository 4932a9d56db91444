-- ===== src/Hash/Fresh.antt =====
-- HSH_Lookup in bin/varnishd/cache_hash.c: what holds of an object that a session gets.
use pkg_varnish.Prelude.{
  ℕ, ◌≤◌, ◌<◌, ◌≡◌, refl, sym, ap, ◌∙◌, ◌⊎◌, inl, inr, Bool, true, false, not, ◌||◌, Option, none,
  some, List, [], ◌∷◌, arith, if◌then◌else◌, Bool-cases, Option-cases, length, ◌>>=◌,
}
use pkg_varnish.Expire.{is_positive, exp_ttl, exp_grace}
use pkg_varnish.Hash.{
  Object, Objcore, Objhead, Sess, Verdict, pass_over, busy, live, in_grace, getobj, deref_oh,
  vary_ok, classify_object, classify_busy, classify_by, classify, hit, miss, use_oc, insert_busy,
  lookup,
}
use pkg_varnish.Hash.Scan.{
  AllReady, is_live, grace_of, find_live, any_busy, best_grace, later_best, verdict, verdict_of,
}
use pkg_varnish.Hash.Decide.{choice, choice_or, other, decide, choose, lookup-decide}

given-id :
    (oh oh' : Objhead) (oc used : Objcore) (o : Object)
    → getobj oc ≡ some o
    → use_oc oh oc ≡ some (hit used, oh')
    → used.id ≡ oc.id
unfolding use_oc deref_oh
given-id oh oh' oc used o e h = ground arith

pub getobj-ready :
    (oc : Objcore) (o : Object) → oc.busyobj ≡ none → oc.object ≡ some o → getobj oc ≡ some o
unfolding getobj
getobj-ready oc o b e = rw b e

module _ (vry_match : Sess → List ℕ → Bool) (ban_check : Sess → Object → Bool)
    (vdi_healthy : Sess → Bool) (default_grace : ℕ) (sp : Sess) where
  -- The session may have this object: it has a ttl, no ban hits it, it matches the session's headers,
  -- and it is in its grace at least.
  abbrev pub IsUsable : Object → Type 0
  IsUsable o =
      (is_positive o.exp.ttl ≡ true)
      × (ban_check sp o ≡ false)
      × (vary_ok vry_match ban_check default_grace sp o.vary ≡ true)
      × ((sp.t_req ≤ exp_ttl (some sp.exp) o.exp)
          ⊎ (sp.t_req ≤ exp_grace default_grace 0 (some sp.exp) o.exp))

  abbrev pub HasUsable : Objcore → Type 0
  HasUsable oc = (o : Object) × (oc.busyobj ≡ none) × (oc.object ≡ some o) × IsUsable o

  is_used : Verdict → Bool
  is_used live = true
  is_used (in_grace t) = true
  is_used busy = false
  is_used pass_over = false

  object-IsUsable :
      (o : Object)
      → is_used (classify_object vry_match ban_check default_grace sp o) ≡ true
      → IsUsable o
  unfolding classify_object is_used vary_ok
  object-IsUsable o u = ground arith

  busy_unused :
      (vary : Option (List ℕ))
      → is_used (classify_busy vry_match ban_check default_grace sp vary) ≡ true
      → ⊥
  unfolding classify_busy is_used
  busy_unused vary e = ground arith

  verdict-HasUsable :
      (oc : Objcore)
      → is_used (verdict vry_match ban_check vdi_healthy default_grace sp oc) ≡ true
      → HasUsable oc
  unfolding verdict verdict_of classify classify_by is_used
  verdict-HasUsable oc u = by_fields oc.busyobj oc.object u
    where
      by_fields :
          (b : Option (Option (List ℕ))) (object : Option Object)
          → is_used (
              verdict_of vry_match ban_check vdi_healthy default_grace sp
                (classify_by vry_match ban_check default_grace sp b object))
            ≡ true
          → (o : Object) × (b ≡ none) × (object ≡ some o) × IsUsable o
      by_fields (some vary) object e = absurd (busy_unused vary e)
      by_fields none none e = cc
      by_fields none (some o) e = (o, refl, refl, object-IsUsable o e)

  live-used : (v : Verdict) → is_live v ≡ true → is_used v ≡ true
  unfolding is_live is_used
  live-used v e = ground arith

  find_live-used :
      (ocs : List Objcore) (oc : Objcore)
      → find_live vry_match ban_check vdi_healthy default_grace sp ocs ≡ some oc
      → is_used (verdict vry_match ban_check vdi_healthy default_grace sp oc) ≡ true
  unfolding find_live
  find_live-used [] oc e = cc
  find_live-used (x ∷ ocs) oc e =
      elim (Bool-cases (is_live (verdict vry_match ban_check vdi_healthy default_grace sp x))) [
        | inl l ↦
            let same : x ≡ oc = ground arith in
            ap (λ y. is_used (verdict vry_match ban_check vdi_healthy default_grace sp y))
              (sym same)
            ∙ live-used (verdict vry_match ban_check vdi_healthy default_grace sp x) l
        | inr l ↦ find_live-used ocs oc (ground arith)
      ]

  grace_of-used :
      (v : Verdict) (x oc : Objcore) (t : ℕ)
      → grace_of v x ≡ some (oc, t)
      → (x ≡ oc) × (is_used v ≡ true)
  unfolding grace_of is_used
  grace_of-used v x oc t e = ground arith

  later_best-either :
      (p q : Option (Objcore × ℕ)) (r : Objcore × ℕ)
      → later_best p q ≡ some r
      → (p ≡ some r) ⊎ (q ≡ some r)
  unfolding later_best
  later_best-either none q r e = inr e
  later_best-either (some p) none r e = inl e
  later_best-either (some p) (some q) r e = ground arith

  best_grace-used :
      (ocs : List Objcore) (oc : Objcore) (t : ℕ)
      → best_grace vry_match ban_check vdi_healthy default_grace sp ocs ≡ some (oc, t)
      → is_used (verdict vry_match ban_check vdi_healthy default_grace sp oc) ≡ true
  unfolding best_grace
  best_grace-used [] oc t e = cc
  best_grace-used (x ∷ ocs) oc t e =
      elim (later_best-either
        (grace_of (verdict vry_match ban_check vdi_healthy default_grace sp x) x)
        (best_grace vry_match ban_check vdi_healthy default_grace sp ocs) (oc, t) e) [
          | inl g ↦
              let (same, u) =
                grace_of-used (verdict vry_match ban_check vdi_healthy default_grace sp x) x oc t
                  g in
              ap (λ y. is_used (verdict vry_match ban_check vdi_healthy default_grace sp y))
                (sym same)
              ∙ u
          | inr g ↦ best_grace-used ocs oc t g
        ]

  other-used :
      (ocs : List Objcore) (oc : Objcore)
      → other vry_match ban_check vdi_healthy default_grace sp ocs ≡ some oc
      → is_used (verdict vry_match ban_check vdi_healthy default_grace sp oc) ≡ true
  unfolding other
  other-used ocs oc e =
      elim (Option-cases (best_grace vry_match ban_check vdi_healthy default_grace sp ocs)) [
        | inl b ↦ absurd (none_found b e)
        | inr ((x, t), b) ↦
            ap (λ y. is_used (verdict vry_match ban_check vdi_healthy default_grace sp y))
              (found x t b e)
            ∙ best_grace-used ocs x t b
      ]
    where
      chosen : Option (Objcore × ℕ) → Option Objcore
      chosen best =
          if any_busy vry_match ban_check vdi_healthy default_grace sp ocs || not (vdi_healthy sp)
          then (best >>= λ (y, t). some y)
          else none

      none_found :
          best_grace vry_match ban_check vdi_healthy default_grace sp ocs ≡ none
          → chosen (best_grace vry_match ban_check vdi_healthy default_grace sp ocs) ≡ some oc
          → ⊥
      none_found b h = ground arith

      found :
          (x : Objcore) (t : ℕ)
          → best_grace vry_match ban_check vdi_healthy default_grace sp ocs ≡ some (x, t)
          → chosen (best_grace vry_match ban_check vdi_healthy default_grace sp ocs) ≡ some oc
          → oc ≡ x
      found x t b h = ground arith

  choice-used :
      (ocs : List Objcore) (oc : Objcore) (l : Option Objcore)
      → find_live vry_match ban_check vdi_healthy default_grace sp ocs ≡ l
      → choice_or l (other vry_match ban_check vdi_healthy default_grace sp ocs) ≡ some oc
      → is_used (verdict vry_match ban_check vdi_healthy default_grace sp oc) ≡ true
  unfolding choice_or
  choice-used ocs oc (some x) l e =
      let same : some x ≡ some oc = e in find_live-used ocs oc (l ∙ same)
  choice-used ocs oc none l e = other-used ocs oc e

  pub choice-HasUsable :
      (ocs : List Objcore) (oc : Objcore)
      → choice vry_match ban_check vdi_healthy default_grace sp ocs ≡ some oc
      → HasUsable oc
  unfolding choice
  choice-HasUsable ocs oc e =
      verdict-HasUsable oc
        (choice-used ocs oc (find_live vry_match ban_check vdi_healthy default_grace sp ocs) refl e)

  -- A session that is given an object does not always miss, and the object is its choice among those
  -- of the objhead: it has a ttl, no ban hits it, it matches the session's headers, and its ttl or
  -- grace, cut to the session's limits, has not run out.
  pub lookup-hit :
      (oh oh' : Objhead) (nobjcore : ℕ) (used : Objcore)
      → AllReady oh.objcs
      → length oh.objcs < oh.refcnt
      → lookup vry_match ban_check vdi_healthy default_grace oh sp nobjcore ≡ some (hit used, oh')
      → (oc : Objcore) × (choice vry_match ban_check vdi_healthy default_grace sp oh.objcs
          ≡ some oc)
        × (used.id ≡ oc.id)
        × (sp.hash_always_miss ≡ false)
        × HasUsable oc
  unfolding decide choose
  lookup-hit oh oh' nobjcore used ready counted e =
      decided (choice vry_match ban_check vdi_healthy default_grace sp oh.objcs) refl (
        sym
          (lookup-decide vry_match ban_check vdi_healthy default_grace sp oh nobjcore ready counted)
        ∙ e)
    where
      given : (oc : Objcore) → HasUsable oc → use_oc oh oc ≡ some (hit used, oh') → used.id ≡ oc.id
      given oc (o, b, object, u) h = given-id oh oh' oc used o (getobj-ready oc o b object) h

      not_always :
          sp.hash_always_miss ≡ true
          → decide vry_match ban_check vdi_healthy default_grace sp oh nobjcore
            ≡ some (hit used, oh')
          → ⊥
      not_always m h = ground arith

      decide-choose :
          sp.hash_always_miss ≡ false
          → decide vry_match ban_check vdi_healthy default_grace sp oh nobjcore
            ≡ choose vry_match ban_check vdi_healthy default_grace sp oh nobjcore
                (choice vry_match ban_check vdi_healthy default_grace sp oh.objcs)
      decide-choose m =
          ap
            (λ b.
              if b
              then some (miss, insert_busy oh sp nobjcore)
              else choose vry_match ban_check vdi_healthy default_grace sp oh nobjcore
                  (choice vry_match ban_check vdi_healthy default_grace sp oh.objcs))
            m

      not_given :
          choose vry_match ban_check vdi_healthy default_grace sp oh nobjcore none
            ≡ some (hit used, oh')
          → ⊥
      not_given h = ground arith

      chosen :
          (c : Option Objcore)
          → choice vry_match ban_check vdi_healthy default_grace sp oh.objcs ≡ c
          → sp.hash_always_miss ≡ false
          → choose vry_match ban_check vdi_healthy default_grace sp oh nobjcore
              (choice vry_match ban_check vdi_healthy default_grace sp oh.objcs)
            ≡ some (hit used, oh')
          → (oc : Objcore) × (choice vry_match ban_check vdi_healthy default_grace sp oh.objcs
              ≡ some oc)
            × (used.id ≡ oc.id)
            × (sp.hash_always_miss ≡ false)
            × HasUsable oc
      chosen none f m h = absurd (
          not_given
            (ap (choose vry_match ban_check vdi_healthy default_grace sp oh nobjcore) (sym f) ∙ h))
      chosen (some oc) f m h =
          let u = choice-HasUsable oh.objcs oc f in
          (
            oc,
            f,
            given oc u (
                ap (choose vry_match ban_check vdi_healthy default_grace sp oh nobjcore) (sym f)
                ∙ h),
            m,
            u,
          )

      decided :
          (c : Option Objcore)
          → choice vry_match ban_check vdi_healthy default_grace sp oh.objcs ≡ c
          → decide vry_match ban_check vdi_healthy default_grace sp oh nobjcore
            ≡ some (hit used, oh')
          → (oc : Objcore) × (choice vry_match ban_check vdi_healthy default_grace sp oh.objcs
              ≡ some oc)
            × (used.id ≡ oc.id)
            × (sp.hash_always_miss ≡ false)
            × HasUsable oc
      decided c f h = elim (Bool-cases sp.hash_always_miss) [
        | inl m ↦ absurd (not_always m h)
        | inr m ↦ chosen c f m (sym (decide-choose m) ∙ h)
      ]
