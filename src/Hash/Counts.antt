-- ===== src/Hash/Counts.antt =====
-- The lists of objcores in bin/varnishd/cache_hash.c: what their changes keep.
use pkg_varnish.Prelude.{
  ℕ, suc, ◌<◌, ◌≡◌, refl, sym, ap, ◌∙◌, inl, inr, true, some, List, [], ◌∷◌, ◌++◌, arith, ◌==◌,
  if◌then◌else◌, Bool-cases, length,
}
use mathlib.Core.Path.{subst}
use pkg_varnish.Hash.{Objcore, is_some, find_oc, update_oc, remove_oc}
use pkg_varnish.Hash.Scan.{IsReady, AllReady}

-- Somebody holds the objcore, it has an object unless it is busy, it has one where several hold it,
-- and while busy with one it has a ban.
abbrev pub IsOk : Objcore → Type 0
IsOk oc =
    (0 < oc.refcnt)
    × IsReady oc
    × (1 < oc.refcnt → is_some oc.object ≡ true)
    × (is_some oc.busyobj ≡ true → is_some oc.object ≡ true → oc.ban ≡ true)

abbrev pub AllOk : List Objcore → Type 0
AllOk [] = Unit {0}
AllOk (oc ∷ ocs) = IsOk oc × AllOk ocs

pub AllOk-AllReady : (ocs : List Objcore) → AllOk ocs → AllReady ocs
AllOk-AllReady [] ok = ok
AllOk-AllReady (oc ∷ ocs) ((p, r, h, b), ok) = (r, AllOk-AllReady ocs ok)

pub AllOk-append :
    (ocs : List Objcore) (oc : Objcore) → AllOk ocs → IsOk oc → AllOk (ocs ++ oc ∷ [])
AllOk-append [] oc ok here = (here, ok)
AllOk-append (x ∷ ocs) oc (first, ok) here = (first, AllOk-append ocs oc ok here)

pub length-update_oc :
    (ocs : List Objcore) (new : Objcore) → length (update_oc ocs new) ≡ length ocs
unfolding update_oc
length-update_oc [] new = refl
length-update_oc (oc ∷ ocs) new = elim (Bool-cases (oc.id == new.id)) [
  | inl e ↦ rw e refl
  | inr e ↦ rw e (ap suc (length-update_oc ocs new))
]

pub AllOk-update_oc :
    (ocs : List Objcore) (new : Objcore) → AllOk ocs → IsOk new → AllOk (update_oc ocs new)
unfolding update_oc
AllOk-update_oc [] new ok here = ok
AllOk-update_oc (oc ∷ ocs) new (first, ok) here = elim (Bool-cases (oc.id == new.id)) [
  | inl e ↦ rw e (here, ok)
  | inr e ↦ rw e (first, AllOk-update_oc ocs new ok here)
]

pub length-remove_oc :
    (ocs : List Objcore) (id : ℕ) (oc : Objcore)
    → find_oc ocs id ≡ some oc
    → suc (length (remove_oc ocs id)) ≡ length ocs
unfolding remove_oc find_oc
length-remove_oc [] id oc e = cc
length-remove_oc (x ∷ ocs) id oc e = elim (Bool-cases (x.id == id)) [
  | inl h ↦ rw h refl
  | inr h ↦ rw h (
      ap suc
        (length-remove_oc ocs id oc (ap (λ b. if b then some x else find_oc ocs id) (sym h) ∙ e)))
]

pub AllOk-remove_oc : (ocs : List Objcore) (id : ℕ) → AllOk ocs → AllOk (remove_oc ocs id)
unfolding remove_oc
AllOk-remove_oc [] id ok = ok
AllOk-remove_oc (x ∷ ocs) id (first, ok) = elim (Bool-cases (x.id == id)) [
  | inl h ↦ rw h ok
  | inr h ↦ rw h (first, AllOk-remove_oc ocs id ok)
]

pub find_oc-IsOk :
    (ocs : List Objcore) (id : ℕ) (oc : Objcore) → AllOk ocs → find_oc ocs id ≡ some oc → IsOk oc
unfolding find_oc
find_oc-IsOk [] id oc ok e = cc
find_oc-IsOk (x ∷ ocs) id oc (first, ok) e = elim (Bool-cases (x.id == id)) [
  | inl h ↦ let same : x ≡ oc = ground arith in subst IsOk same first
  | inr h ↦ find_oc-IsOk ocs id oc ok (ap (λ b. if b then some x else find_oc ocs id) (sym h) ∙ e)
]

pub find_oc-id :
    (ocs : List Objcore) (id : ℕ) (oc : Objcore) → find_oc ocs id ≡ some oc → oc.id ≡ id
unfolding find_oc
find_oc-id [] id oc e = cc
find_oc-id (x ∷ ocs) id oc e = elim (Bool-cases (x.id == id)) [
  | inl h ↦ ground arith
  | inr h ↦ find_oc-id ocs id oc (ap (λ b. if b then some x else find_oc ocs id) (sym h) ∙ e)
]
