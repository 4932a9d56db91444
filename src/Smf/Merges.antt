-- ===== src/Smf/Merges.antt =====
-- The merges of free_smf of bin/varnishd/storage_file.c.
use pkg_varnish.Prelude.{
  ℕ, ◌≡◌, refl, sym, ap, ◌∙◌, ◌≢◌, inl, inr, false, not, ◌&&◌, some, arith, ◌==◌, Bool-cases,
  Option-cases,
}
use mathlib.Core.Path.{subst}
use pkg_varnish.Prelude.Tailq.{next, prev}
use pkg_varnish.Prelude.Adjacent.{
  Adjacent, Adjacent-map_next, Adjacent-remove_next, next-On, next-prev, prev-next,
}
use pkg_varnish.Smf.{Smf, SmfSc, less_smf, is_contiguous, merge_next, merge_prev}
use pkg_varnish.Smf.Lists.{IsLoose}
use pkg_varnish.Smf.Merging.{
  taken, joined, merge_next_eq, taken-joined-IsLoose, merge_prev_eq, joined-taken-IsLoose,
}
use pkg_varnish.Smf.Ranges.{
  MergesNext, is_mergeable, AreMerged, AreMergedBut, AreMergedBehind, Keeps, unsome, not_merged,
  mergeable_first, restated, mergeable_lem, next_Widens, prev_Widens, widened_else, widened_behind,
  widened_same, widened-SameFree,
}

MergesNext-some :
    (sc : SmfSc) (sp n : ℕ)
    → IsLoose sc sp
    → Adjacent (AreMergedBut sc sp) sc.order
    → next sp sc.order ≡ some n
    → MergesNext sc sp
MergesNext-some sc sp n (v, on, a, l) m h =
    let (_, n_on, ne) = next-On sp n sc.order v.once h in
    elim (Bool-cases (is_mergeable (sc.smf sp) (sc.smf n))) [
      | inl yes' ↦
          let (_, an, c, _, _) = mergeable_lem (sc.smf sp) (sc.smf n) yes' in
          let sc' = taken (joined sc sp n) n in
          let (v', on', a', l') = taken-joined-IsLoose sc sp n (v, on, a, l) n_on ne an in
          let w = next_Widens sc sp n ne l in
          rw h (
            record sc' { stats = less_smf sc'.stats },
            merge_next_eq sc sp n ne an (v.homed n n_on (λ t. ne (unsome t))) c,
            (restated (some sp) sc' (less_smf sc'.stats) v', on', a', l'),
            Adjacent-remove_next (AreMergedBut sc sp) (AreMergedBehind sc' sp) sp n sc.order v.once
                h
                (λ x y hx hy d d1 d2 d3 r.
                  let b = widened_else sc sp n ne sc' w yes' x y d1 d2 d3 r.0 in
                  (b.0, λ q. b.1 (r.1 d1 q)))
                (λ y hy d1 d2 r.
                  let b = widened_behind sc sp n ne sc' w yes' y d1 d2 r.0 (r.1 ne d1) in
                  (b.0, λ q. b.1))
                m,
            (
              refl,
              refl,
              widened_same sc sp n ne sc' w yes',
              widened-SameFree sc sp n ne sc' w yes' v.once on n_on refl,
            ),
          )
      | inr apart ↦
          let t : (not (sc.smf n).alloc && is_contiguous (sc.smf sp) (sc.smf n)) ≡ false =
            sym (mergeable_first (sc.smf sp) (sc.smf n) a) ∙ apart in
          (
            sc,
            rw h (unfold merge_next in rw t refl),
            (v, on, a, l),
            not_merged sc sp (v, on, a, l) m
                (λ k hk.
                  subst (λ z. is_mergeable (sc.smf sp) (sc.smf z) ≡ false) (unsome (sym hk ∙ h))
                    apart),
            (refl, refl, (λ q f. refl), λ p. (λ h. h, λ h. h)),
          )
    ]

pub merge_next_lem :
    (sc : SmfSc) (sp : ℕ)
    → IsLoose sc sp
    → Adjacent (AreMergedBut sc sp) sc.order
    → MergesNext sc sp
merge_next_lem sc sp loose m = elim (Option-cases (next sp sc.order)) [
  | inl last ↦ rw last (
    sc,
    unfold merge_next in refl,
    loose,
    not_merged sc sp loose m (λ n h. absurd (let e = sym last ∙ h in cc)),
    (refl, refl, (λ q a. refl), λ p. (λ h. h, λ h. h)),
  )
  | inr (n, h) ↦ MergesNext-some sc sp n loose m h
]

-- What merge_prev gives: the range that is left.
abbrev pub MergesPrev : SmfSc → ℕ → Type 0
MergesPrev sc sp =
    (p : ℕ) × (sc' : SmfSc) × (merge_prev sc sp (prev sp sc.order) ≡ some (p, sc'))
    × IsLoose sc' p
    × Adjacent (AreMerged sc') sc'.order
    × Keeps sc sc'

merged_before :
    (sc : SmfSc) (sp : ℕ)
    → IsLoose sc sp
    → Adjacent (AreMergedBehind sc sp) sc.order
    → ((p : ℕ) → prev sp sc.order ≡ some p → is_mergeable (sc.smf p) (sc.smf sp) ≡ false)
    → Adjacent (AreMerged sc) sc.order
merged_before sc sp (v, on, a, l) m none_before =
    Adjacent-map_next (AreMergedBehind sc sp) (AreMerged sc) sc.order v.once
      (λ x y hx hy n r. (
        r.0,
        elim (Bool-cases (y == sp)) [
          | inl here ↦
              let e : y ≡ sp = ground arith in
              let n' : next x sc.order ≡ some sp = n ∙ ap some e in
              subst (λ t. is_mergeable (sc.smf x) (sc.smf t) ≡ false) (sym e)
                (none_before x (prev-next sp x sc.order v.once n'))
          | inr other ↦ r.1 (ground arith)
        ],
      ))
      m

mergeable_second :
    (s t : Smf) → t.alloc ≡ false → is_mergeable s t ≡ (not s.alloc && is_contiguous s t)
unfolding is_mergeable
mergeable_second s t a = ground arith

MergesPrev-some :
    (sc : SmfSc) (sp p : ℕ)
    → IsLoose sc sp
    → Adjacent (AreMergedBehind sc sp) sc.order
    → prev sp sc.order ≡ some p
    → MergesPrev sc sp
MergesPrev-some sc sp p (v, on, a, l) m h =
    let hn = next-prev sp p sc.order v.once h in
    let (p_on, _, d) = next-On p sp sc.order v.once hn in
    let ne : p ≢ sp = (λ t. d (sym t)) in
    elim (Bool-cases (is_mergeable (sc.smf p) (sc.smf sp))) [
      | inl yes' ↦
          let (ap', _, c, _, _) = mergeable_lem (sc.smf p) (sc.smf sp) yes' in
          let sc' = joined (taken sc p) p sp in
          let (v', on', a', l') = joined-taken-IsLoose sc sp p (v, on, a, l) p_on ne ap' in
          let w = prev_Widens sc p sp d in
          rw h (
            p,
            record sc' { stats = less_smf sc'.stats },
            merge_prev_eq sc sp p ne ap' (v.homed p p_on (λ t. ne (unsome t))) c,
            (restated (some p) sc' (less_smf sc'.stats) v', on', a', l'),
            Adjacent-remove_next (AreMergedBehind sc sp) (AreMerged sc') p sp sc.order v.once hn
                (λ x y hx hy d0 d1 d2 d3 r.
                  let b = widened_else sc p sp d sc' w yes' x y d1 d2 d3 r.0 in (b.0, b.1 (r.1 d3)))
                (λ y hy d1 d2 r. widened_behind sc p sp d sc' w yes' y d1 d2 r.0 (r.1 d2)) m,
            (
              refl,
              refl,
              widened_same sc p sp d sc' w yes',
              widened-SameFree sc p sp d sc' w yes' v.once p_on on refl,
            ),
          )
      | inr apart ↦
          let t : (not (sc.smf p).alloc && is_contiguous (sc.smf p) (sc.smf sp)) ≡ false =
            sym (mergeable_second (sc.smf p) (sc.smf sp) a) ∙ apart in
          (
            sp,
            sc,
            rw h (unfold merge_prev in rw t refl),
            (v, on, a, l),
            merged_before sc sp (v, on, a, l) m
                (λ k hk.
                  subst (λ z. is_mergeable (sc.smf z) (sc.smf sp) ≡ false) (unsome (sym hk ∙ h))
                    apart),
            (refl, refl, (λ q f. refl), λ p. (λ h. h, λ h. h)),
          )
    ]

pub merge_prev_lem :
    (sc : SmfSc) (sp : ℕ)
    → IsLoose sc sp
    → Adjacent (AreMergedBehind sc sp) sc.order
    → MergesPrev sc sp
merge_prev_lem sc sp loose m = elim (Option-cases (prev sp sc.order)) [
  | inl none_before ↦ rw none_before (
    sp,
    sc,
    unfold merge_prev in refl,
    loose,
    merged_before sc sp loose m (λ p h. absurd (let e = sym none_before ∙ h in cc)),
    (refl, refl, (λ q a. refl), λ p. (λ h. h, λ h. h)),
  )
  | inr (p, h) ↦ MergesPrev-some sc sp p loose m h
]
