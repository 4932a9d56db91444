-- ===== src/Hash/Decide.antt =====
-- HSH_Lookup in bin/varnishd/cache_hash.c: which object a session gets.
use pkg_varnish.Prelude.{
  ℕ, ◌<◌, ◌≡◌, refl, sym, ap, ◌∙◌, ◌⊎◌, inl, inr, Bool, true, false, not, ◌||◌, Option, none, some,
  List, [], ◌∷◌, arith, ltb, if◌then◌else◌, Bool-cases, length, ◌>>=◌,
}
use pkg_varnish.Hash.{
  Object, Objcore, Objhead, Sess, Seen, is_some, nothing_seen, Outcome, wait, miss, pick, use_oc,
  wait_on, insert_busy, settle, lookup,
}
use pkg_varnish.Hash.Scan.{
  AllReady, find_live, any_busy, best_grace, candidate, grace_oc-candidate, notes, scan-notes,
  notes-any_busy, notes-best_grace, notes-always_miss, later_best,
}

settle-use_oc :
    (oh : Objhead) (sp : Sess) (nobjcore : ℕ) (oc : Objcore) (seen : Seen)
    → sp.hash_always_miss ≡ false
    → settle oh sp nobjcore (some oc) seen ≡ use_oc oh oc
unfolding settle
settle-use_oc oh sp nobjcore oc seen m = rw m refl

settle-wait :
    (oh : Objhead) (sp : Sess) (nobjcore : ℕ) (seen : Seen)
    → settle oh sp nobjcore none seen ≡ (
        if is_some seen.busy_oc
        then some (wait, wait_on oh sp)
        else some (miss, insert_busy oh sp nobjcore))
unfolding settle
settle-wait oh sp nobjcore seen = refl

settle-miss :
    (oh : Objhead) (sp : Sess) (nobjcore : ℕ) (picked : Option Objcore) (seen : Seen)
    → sp.hash_always_miss ≡ true
    → seen.busy_oc ≡ none
    → settle oh sp nobjcore picked seen ≡ some (miss, insert_busy oh sp nobjcore)
unfolding settle
settle-miss oh sp nobjcore none seen m b = rw b refl
settle-miss oh sp nobjcore (some oc) seen m b = rw (m, b) refl

-- The live one, or else the other.
unfoldable pub choice_or : Option Objcore → Option Objcore → Option Objcore
choice_or (some oc) other = some oc
choice_or none other = other

module _ (vry_match : Sess → List ℕ → Bool) (ban_check : Sess → Object → Bool)
    (vdi_healthy : Sess → Bool) (default_grace : ℕ) (sp : Sess) where
  -- Where somebody is fetching or the backend is not healthy, the one in grace whose ttl ended last.
  unfoldable pub other : List Objcore → Option Objcore
  other ocs =
      if any_busy vry_match ban_check vdi_healthy default_grace sp ocs || not (vdi_healthy sp)
      then (best_grace vry_match ban_check vdi_healthy default_grace sp ocs >>= λ (oc, t). some oc)
      else none

  -- The objcore to use: the first live one, or else that.
  unfoldable pub choice : List Objcore → Option Objcore
  unfolding choice_or other
  choice ocs =
      choice_or (find_live vry_match ban_check vdi_healthy default_grace sp ocs) (other ocs)

  unfoldable pub choose : Objhead → ℕ → Option Objcore → Option (Outcome × Objhead)
  choose oh nobjcore (some oc) = use_oc oh oc
  choose oh nobjcore none =
      if any_busy vry_match ban_check vdi_healthy default_grace sp oh.objcs
      then some (wait, wait_on oh sp)
      else some (miss, insert_busy oh sp nobjcore)

  -- What HSH_Lookup should come to.
  unfoldable pub decide : Objhead → ℕ → Option (Outcome × Objhead)
  decide oh nobjcore =
      if sp.hash_always_miss
      then some (miss, insert_busy oh sp nobjcore)
      else choose oh nobjcore (choice oh.objcs)

  settle-choose :
      (oh : Objhead) (nobjcore : ℕ) (p : Option Objcore) (seen : Seen)
      → sp.hash_always_miss ≡ false
      → is_some seen.busy_oc ≡ any_busy vry_match ban_check vdi_healthy default_grace sp oh.objcs
      → settle oh sp nobjcore p seen ≡ choose oh nobjcore p
  unfolding choose
  settle-choose oh nobjcore (some oc) seen m b = settle-use_oc oh sp nobjcore oc seen m
  settle-choose oh nobjcore none seen m b = settle-wait oh sp nobjcore seen ∙ rw b refl

  pick-choice :
      (ocs : List Objcore) (live_oc : Option Objcore)
      → find_live vry_match ban_check vdi_healthy default_grace sp ocs ≡ live_oc
      → pick live_oc
          (notes vry_match ban_check vdi_healthy default_grace sp ocs nothing_seen)
          (vdi_healthy sp)
        ≡ choice ocs
  unfolding pick choice candidate later_best other
  pick-choice ocs (some oc) e = sym (ap (λ r. choice_or r (other ocs)) e)
  pick-choice ocs none e =
      let seen = notes vry_match ban_check vdi_healthy default_grace sp ocs nothing_seen in
      let b : is_some seen.busy_oc ≡ any_busy vry_match ban_check vdi_healthy default_grace sp ocs =
        notes-any_busy vry_match ban_check vdi_healthy default_grace sp ocs nothing_seen e in
      let g : (best_grace vry_match ban_check vdi_healthy default_grace sp ocs >>= λ (oc, t).
      some oc)
          ≡ seen.grace_oc =
        ap (λ c. c >>= λ (oc, t). some oc)
          (sym
            (notes-best_grace vry_match ban_check vdi_healthy default_grace sp ocs nothing_seen e))
        ∙ grace_oc-candidate seen in
      sym (
        ap (λ r. choice_or r (other ocs)) e
        ∙ ap
            (λ c.
              if any_busy vry_match ban_check vdi_healthy default_grace sp ocs
                || not (vdi_healthy sp)
              then c
              else none)
            g
        ∙ ap (λ x. if x || not (vdi_healthy sp) then seen.grace_oc else none) (sym b))

  settle-live :
      (oh : Objhead) (nobjcore : ℕ) (live_oc : Option Objcore)
      → find_live vry_match ban_check vdi_healthy default_grace sp oh.objcs ≡ live_oc
      → sp.hash_always_miss ≡ false
      → settle oh sp nobjcore
          (pick live_oc
            (notes vry_match ban_check vdi_healthy default_grace sp oh.objcs nothing_seen)
            (vdi_healthy sp))
          (notes vry_match ban_check vdi_healthy default_grace sp oh.objcs nothing_seen)
        ≡ choose oh nobjcore (choice oh.objcs)
  unfolding pick choose
  settle-live oh nobjcore (some oc) e m =
      settle-use_oc oh sp nobjcore oc
        (notes vry_match ban_check vdi_healthy default_grace sp oh.objcs nothing_seen) m
      ∙ ap (choose oh nobjcore) (pick-choice oh.objcs (some oc) e)
  settle-live oh nobjcore none e m =
      let seen = notes vry_match ban_check vdi_healthy default_grace sp oh.objcs nothing_seen in
      ap (λ p. settle oh sp nobjcore p seen) (pick-choice oh.objcs none e)
      ∙ settle-choose oh nobjcore (choice oh.objcs) seen m
          (notes-any_busy vry_match ban_check vdi_healthy default_grace sp oh.objcs nothing_seen e)

  settle-decide :
      (oh : Objhead) (nobjcore : ℕ) (live_oc : Option Objcore)
      → find_live vry_match ban_check vdi_healthy default_grace sp oh.objcs ≡ live_oc
      → settle oh sp nobjcore
          (pick live_oc
            (notes vry_match ban_check vdi_healthy default_grace sp oh.objcs nothing_seen)
            (vdi_healthy sp))
          (notes vry_match ban_check vdi_healthy default_grace sp oh.objcs nothing_seen)
        ≡ decide oh nobjcore
  unfolding decide
  settle-decide oh nobjcore live_oc e =
      let seen = notes vry_match ban_check vdi_healthy default_grace sp oh.objcs nothing_seen in
      let picked = pick live_oc seen (vdi_healthy sp) in
      let by_test = λ (b : Bool).
        if b
        then some (miss, insert_busy oh sp nobjcore)
        else choose oh nobjcore (choice oh.objcs) in
      elim (Bool-cases sp.hash_always_miss) [
        | inl m ↦
            settle-miss oh sp nobjcore picked seen m (
              notes-always_miss vry_match ban_check vdi_healthy default_grace sp oh.objcs
                nothing_seen m refl)
            ∙ sym (ap by_test m)
        | inr m ↦ settle-live oh nobjcore live_oc e m ∙ sym (ap by_test m)
      ]

  -- On an objhead whose objcores are ready and that has a reference for each of them and one more,
  -- HSH_Lookup uses the first live object; without one, the object in grace that expired last, where
  -- somebody is fetching or the backend is not healthy; without either it waits where a busy object
  -- matches, and inserts a busy objcore where none does. A session that always misses does the last.
  pub lookup-decide :
      (oh : Objhead) (nobjcore : ℕ)
      → AllReady oh.objcs
      → length oh.objcs < oh.refcnt
      → lookup vry_match ban_check vdi_healthy default_grace oh sp nobjcore ≡ decide oh nobjcore
  unfolding lookup
  lookup-decide oh nobjcore ready counted =
      let held : ltb 0 oh.refcnt ≡ true = ground arith in
      let found =
        scan-notes vry_match ban_check vdi_healthy default_grace sp oh.refcnt oh.objcs nothing_seen
          ready (enough oh.objcs counted) in
      rw (held, found)
        (settle-decide oh nobjcore
          (find_live vry_match ban_check vdi_healthy default_grace sp oh.objcs) refl)
    where
      enough : (ocs : List Objcore) → length ocs < oh.refcnt → (ocs ≡ []) ⊎ (1 < oh.refcnt)
      enough [] c = inl refl
      enough (oc ∷ ocs) c = inr (omega arith)
