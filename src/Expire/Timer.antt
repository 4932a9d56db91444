-- ===== src/Expire/Timer.antt =====
-- The timer of an object in bin/varnishd/cache_expire.c.
use pkg_varnish.Prelude.{
  ℕ, ◌≤◌, ◌≡◌, refl, sym, ◌∙◌, ◌⊎◌, inl, inr, true, false, Option, none, some, arith, ◌==◌,
  if◌then◌else◌, ==_iff, Bool-cases,
}
use pkg_varnish.Expire.{
  Exp, is_positive, get_or, get_ttl, get_grace, get_keep, set_ttl, limit, limit_span, after,
  of_session, exp_ttl, or_default, exp_grace, exp_keep, object_when, update_object_when,
}

limit_le : (v : Option ℕ) (r : ℕ) → limit v r ≤ r
unfolding limit
limit_le none r = omega arith
limit_le (some v) r = ground arith

exp_ttl_le : (sp : Option Exp) (o : Exp) → exp_ttl sp o ≤ exp_ttl none o
unfolding exp_ttl limit_span of_session limit after
exp_ttl_le sp o = spans o.ttl
  where
    spans :
        (ttl : Option ℕ)
        → after o.entered (limit_span (of_session sp (λ e. e.ttl)) ttl)
          ≤ after o.entered (limit_span (of_session none (λ e. e.ttl)) ttl)
    spans none = omega arith
    spans (some r) = omega (arith, limit_le (of_session sp (λ e. e.ttl)) r)

module _ (default_grace default_keep : ℕ) where
  -- A session's own limits only shorten an object's ttl, grace and keep.
  pub session_le :
      (sp : Option Exp) (o : Exp)
      → (exp_ttl sp o ≤ exp_ttl none o)
        × (exp_grace default_grace default_keep sp o ≤ exp_grace default_grace default_keep none o)
        × (exp_keep default_grace default_keep sp o ≤ exp_keep default_grace default_keep none o)
  unfolding exp_grace exp_keep of_session limit
  session_le sp o =
      let t = exp_ttl_le sp o in
      let grace = or_default default_grace o.grace in
      let keep = or_default default_keep (if is_positive o.keep then o.keep else none) in
      let g = limit_le (of_session sp (λ e. e.grace)) grace in
      let k = limit_le (of_session sp (λ e. e.keep)) keep in (t, omega arith, omega arith)

  object_when_le :
      (o : Exp)
      → (exp_ttl none o ≤ object_when default_grace default_keep o)
        × (exp_grace default_grace default_keep none o ≤ object_when default_grace default_keep o)
        × (exp_keep default_grace default_keep none o ≤ object_when default_grace default_keep o)
  unfolding object_when
  object_when_le o =
      let longer : exp_ttl none o ≤ exp_grace default_grace default_keep none o =
        unfold exp_grace in omega arith in
      ground arith

  pub update_object_when-object_when :
      (timer_when : ℕ) (o : Exp)
      → (update_object_when default_grace default_keep timer_when o).1
        ≡ object_when default_grace default_keep o
  unfolding update_object_when
  update_object_when-object_when timer_when o =
      elim (Bool-cases (object_when default_grace default_keep o == timer_when)) [
        | inl e ↦ rw e (sym ((==_iff (object_when default_grace default_keep o) timer_when).0 e))
        | inr e ↦ rw e refl
      ]

  pub update_object_when-cases :
      (timer_when : ℕ) (o : Exp)
      → (update_object_when default_grace default_keep timer_when o ≡ (false, timer_when))
          × (timer_when ≡ object_when default_grace default_keep o)
        ⊎ (update_object_when default_grace default_keep timer_when o
            ≡ (true, object_when default_grace default_keep o))
  unfolding update_object_when
  update_object_when-cases timer_when o =
      elim (Bool-cases (object_when default_grace default_keep o == timer_when)) [
        | inl e ↦
            inl
              (rw e refl, sym ((==_iff (object_when default_grace default_keep o) timer_when).0 e))
        | inr e ↦ inr (rw e refl)
      ]

  -- After update_object_when the timer of an object fires for no session before the end of the
  -- object's ttl, grace and keep, and a second update changes nothing.
  pub update_object_when-covers :
      (timer_when : ℕ) (sp : Option Exp) (o : Exp) (when : ℕ)
      → (update_object_when default_grace default_keep timer_when o).1 ≡ when
      → (exp_ttl sp o ≤ when)
        × (exp_grace default_grace default_keep sp o ≤ when)
        × (exp_keep default_grace default_keep sp o ≤ when)
        × (update_object_when default_grace default_keep when o ≡ (false, when))
  update_object_when-covers timer_when sp o when e =
      let (t, g, k) = session_le sp o in
      let (t', g', k') = object_when_le o in
      let w : object_when default_grace default_keep o ≡ when =
        sym (update_object_when-object_when timer_when o) ∙ e in
      let same : (object_when default_grace default_keep o == when) ≡ true = ground arith in
      (omega arith, omega arith, omega arith, unfold update_object_when in rw same refl)

-- A ttl that is not positive is as good as none: the object's grace and keep go with it, and all three
-- are read back as not set. A positive ttl is read back, and grace and keep stay.
pub set_ttl-cases :
    (e : Exp) (v : Option ℕ)
    → (is_positive v ≡ true)
        × (get_ttl (set_ttl e v) ≡ v)
        × (get_grace (set_ttl e v) ≡ get_grace e)
        × (get_keep (set_ttl e v) ≡ get_keep e)
      ⊎ (is_positive v ≡ false)
        × (get_ttl (set_ttl e v) ≡ none)
        × (get_grace (set_ttl e v) ≡ some 0)
        × (get_keep (set_ttl e v) ≡ some 0)
unfolding set_ttl get_ttl get_grace get_keep get_or is_positive
set_ttl-cases e v = elim (Bool-cases (is_positive v)) [
  | inl p ↦ inl (p, rw (p, p) refl, rw p refl, rw p refl)
  | inr n ↦ inr (n, rw n refl, rw n refl, rw n refl)
]
