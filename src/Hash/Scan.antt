-- ===== src/Hash/Scan.antt =====
-- The loop of HSH_Lookup in bin/varnishd/cache_hash.c against a description of what it looks for.
use pkg_varnish.Prelude.{
  ℕ, ◌<◌, ◌≡◌, refl, ap, ◌∙◌, ◌⊎◌, inr, Bool, true, false, ◌||◌, Option, none, some, List, [], ◌∷◌,
  arith, ltb, if◌then◌else◌, ◌>>=◌,
}
use pkg_varnish.Hash.{
  Object, Objcore, Sess, Verdict, pass_over, busy, live, in_grace, Seen, is_some, classify_object,
  classify_busy, classify_by, classify, note, turn, scan,
}

-- An objcore has an object unless it is busy.
abbrev pub IsReady : Objcore → Type 0
IsReady oc = is_some oc.busyobj ≡ false → is_some oc.object ≡ true

abbrev pub AllReady : List Objcore → Type 0
AllReady [] = Unit {0}
AllReady (oc ∷ ocs) = IsReady oc × AllReady ocs

unfoldable pub is_live : Verdict → Bool
is_live live = true
is_live pass_over = false
is_live busy = false
is_live (in_grace t) = false

pub is_busy : Verdict → Bool
is_busy busy = true
is_busy live = false
is_busy pass_over = false
is_busy (in_grace t) = false

-- The one whose ttl ended last, the first of several.
unfoldable pub later_best : Option (Objcore × ℕ) → Option (Objcore × ℕ) → Option (Objcore × ℕ)
later_best none q = q
later_best (some p) none = some p
later_best (some (oc, t)) (some (oc', t')) = if ltb t t' then some (oc', t') else some (oc, t)

later_best_assoc :
    (p q r : Option (Objcore × ℕ)) → later_best (later_best p q) r ≡ later_best p (later_best q r)
unfolding later_best
later_best_assoc none q r = refl
later_best_assoc (some p) none r = refl
later_best_assoc (some p) (some q) none = ground arith
later_best_assoc (some p) (some q) (some r) = ground arith

unfoldable pub grace_of : Verdict → Objcore → Option (Objcore × ℕ)
grace_of (in_grace t) oc = some (oc, t)
grace_of live oc = none
grace_of busy oc = none
grace_of pass_over oc = none

unfoldable pub candidate : Seen → Option (Objcore × ℕ)
candidate seen = seen.grace_oc >>= λ oc. some (oc, seen.grace_ttl)

candidate-note :
    (seen : Seen) (oc : Objcore) (t : ℕ)
    → candidate (note seen oc (in_grace t)) ≡ later_best (candidate seen) (some (oc, t))
unfolding candidate note later_best
candidate-note seen oc t = ground arith

pub grace_oc-candidate : (seen : Seen) → (candidate seen >>= λ (oc, t). some oc) ≡ seen.grace_oc
unfolding candidate
grace_oc-candidate seen = ground arith

module _ (vry_match : Sess → List ℕ → Bool) (ban_check : Sess → Object → Bool)
    (vdi_healthy : Sess → Bool) (default_grace : ℕ) (sp : Sess) where
  unfoldable pub verdict_of : Option Verdict → Verdict
  verdict_of none = pass_over
  verdict_of (some v) = v

  unfoldable pub verdict : Objcore → Verdict
  unfolding verdict_of
  verdict oc = verdict_of (classify vry_match ban_check default_grace sp oc)

  -- The first live objcore.
  unfoldable pub find_live : List Objcore → Option Objcore
  unfolding is_live
  find_live [] = none
  find_live (oc ∷ ocs) = if is_live (verdict oc) then some oc else find_live ocs

  unfoldable pub any_busy : List Objcore → Bool
  unfolding is_busy
  any_busy [] = false
  any_busy (oc ∷ ocs) = is_busy (verdict oc) || any_busy ocs

  unfoldable pub best_grace : List Objcore → Option (Objcore × ℕ)
  unfolding grace_of later_best
  best_grace [] = none
  best_grace (oc ∷ ocs) = later_best (grace_of (verdict oc) oc) (best_grace ocs)

  classify-verdict :
      (oc : Objcore)
      → IsReady oc
      → classify vry_match ban_check default_grace sp oc ≡ some (verdict oc)
  unfolding classify classify_by verdict
  classify-verdict oc ready = by_fields oc.busyobj oc.object ready
    where
      by_fields :
          (b : Option (Option (List ℕ))) (o : Option Object)
          → (is_some b ≡ false → is_some o ≡ true)
          → classify_by vry_match ban_check default_grace sp b o
            ≡ some (verdict_of (classify_by vry_match ban_check default_grace sp b o))
      by_fields (some vary) o h = refl
      by_fields none (some o) h = refl
      by_fields none none h = cc (h refl)

  notes_from : (Seen → Seen) → Seen → Objcore → Verdict → Seen
  notes_from next seen oc live = seen
  notes_from next seen oc pass_over = next seen
  notes_from next seen oc busy = next (note seen oc busy)
  notes_from next seen oc (in_grace t) = next (note seen oc (in_grace t))

  -- What is noted up to the first live objcore.
  pub notes : List Objcore → Seen → Seen
  unfolding notes_from
  notes [] seen = seen
  notes (oc ∷ ocs) seen = notes_from (notes ocs) seen oc (verdict oc)

  pub scan-notes :
      (refcnt : ℕ) (ocs : List Objcore) (seen : Seen)
      → AllReady ocs
      → (ocs ≡ []) ⊎ (1 < refcnt)
      → scan vry_match ban_check vdi_healthy default_grace refcnt sp ocs seen
        ≡ some (find_live ocs, notes ocs seen)
  unfolding scan find_live notes
  scan-notes refcnt [] seen r c = refl
  scan-notes refcnt (oc ∷ ocs) seen (here, r) c =
      let counted : ltb 1 refcnt ≡ true = ground arith in
      rw (counted, classify-verdict oc here)
        (by_verdict (verdict oc) (λ s. scan-notes refcnt ocs s r (inr (ground arith))))
    where
      by_verdict :
          (v : Verdict)
          → ((s : Seen)
              → scan vry_match ban_check vdi_healthy default_grace refcnt sp ocs s
                ≡ some (find_live ocs, notes ocs s))
          → turn vry_match ban_check vdi_healthy default_grace
              (scan vry_match ban_check vdi_healthy default_grace refcnt sp ocs)
              seen
              oc
              v
            ≡ some (if is_live v then some oc else find_live ocs, notes_from (notes ocs) seen oc v)
      by_verdict live ih = refl
      by_verdict pass_over ih = ih seen
      by_verdict busy ih = ih (note seen oc busy)
      by_verdict (in_grace t) ih = ih (note seen oc (in_grace t))

  pub notes-any_busy :
      (ocs : List Objcore) (seen : Seen)
      → find_live ocs ≡ none
      → is_some (notes ocs seen).busy_oc ≡ (is_some seen.busy_oc || any_busy ocs)
  unfolding notes find_live any_busy note is_busy
  notes-any_busy [] seen e = ground arith
  notes-any_busy (oc ∷ ocs) seen e = by_verdict (verdict oc) e (λ s l. notes-any_busy ocs s l)
    where
      by_verdict :
          (v : Verdict)
          → (if is_live v then some oc else find_live ocs) ≡ none
          → ((s : Seen)
              → find_live ocs ≡ none
              → is_some (notes ocs s).busy_oc ≡ (is_some s.busy_oc || any_busy ocs))
          → is_some (notes_from (notes ocs) seen oc v).busy_oc
            ≡ (is_some seen.busy_oc || (is_busy v || any_busy ocs))
      by_verdict live l ih = cc
      by_verdict pass_over l ih = ih seen l
      by_verdict busy l ih = ih (note seen oc busy) l ∙ ground arith
      by_verdict (in_grace t) l ih = ih (note seen oc (in_grace t)) l ∙ ground arith

  pub notes-best_grace :
      (ocs : List Objcore) (seen : Seen)
      → find_live ocs ≡ none
      → candidate (notes ocs seen) ≡ later_best (candidate seen) (best_grace ocs)
  unfolding notes find_live best_grace candidate note
  notes-best_grace [] seen e = ground arith
  notes-best_grace (oc ∷ ocs) seen e = by_verdict (verdict oc) e (λ s l. notes-best_grace ocs s l)
    where
      by_verdict :
          (v : Verdict)
          → (if is_live v then some oc else find_live ocs) ≡ none
          → ((s : Seen)
              → find_live ocs ≡ none
              → candidate (notes ocs s) ≡ later_best (candidate s) (best_grace ocs))
          → candidate (notes_from (notes ocs) seen oc v)
            ≡ later_best (candidate seen) (later_best (grace_of v oc) (best_grace ocs))
      by_verdict live l ih = cc
      by_verdict pass_over l ih = ih seen l
      by_verdict busy l ih = ih (note seen oc busy) l
      by_verdict (in_grace t) l ih =
          ih (note seen oc (in_grace t)) l
          ∙ ap (λ p. later_best p (best_grace ocs)) (candidate-note seen oc t)
          ∙ later_best_assoc (candidate seen) (some (oc, t)) (best_grace ocs)

  always_miss-is_busy : (oc : Objcore) → sp.hash_always_miss ≡ true → is_busy (verdict oc) ≡ false
  unfolding verdict classify classify_by classify_object classify_busy is_busy
  always_miss-is_busy oc m = by_fields oc.busyobj oc.object
    where
      by_fields :
          (b : Option (Option (List ℕ))) (o : Option Object)
          → is_busy (verdict_of (classify_by vry_match ban_check default_grace sp b o)) ≡ false
      by_fields (some vary) o = ground arith
      by_fields none (some o) = ground arith
      by_fields none none = refl

  -- A session that always misses notes no busy object.
  pub notes-always_miss :
      (ocs : List Objcore) (seen : Seen)
      → sp.hash_always_miss ≡ true
      → seen.busy_oc ≡ none
      → (notes ocs seen).busy_oc ≡ none
  unfolding notes note is_busy
  notes-always_miss [] seen m b = b
  notes-always_miss (oc ∷ ocs) seen m b =
      by_verdict (verdict oc) (always_miss-is_busy oc m) (λ s c. notes-always_miss ocs s m c)
    where
      by_verdict :
          (v : Verdict)
          → is_busy v ≡ false
          → ((s : Seen) → s.busy_oc ≡ none → (notes ocs s).busy_oc ≡ none)
          → (notes_from (notes ocs) seen oc v).busy_oc ≡ none
      by_verdict live n ih = b
      by_verdict pass_over n ih = ih seen b
      by_verdict busy n ih = cc
      by_verdict (in_grace t) n ih = ih (note seen oc (in_grace t)) (ground arith)
