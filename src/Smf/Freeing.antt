-- ===== src/Smf/Freeing.antt =====
-- free_smf of bin/varnishd/storage_file.c.
use pkg_varnish.Prelude.{
  ℕ, ◌+◌, ◌≤◌, ◌<◌, ◌↔◌, ◌⊎◌, inl, inr, Bool-cases, ◌%◌, ◌≡◌, refl, sym, ap, ◌∙◌, ◌≢◌, true, false,
  ◌&&◌, none, some, List, arith, ltb, ◌==◌, if◌then◌else◌, ==_iff,
}
use pkg_varnish.Smf.Merges.{merge_next_lem, merge_prev_lem}
use pkg_varnish.Prelude.Cells.{write, write_at, write_else}
use pkg_varnish.Prelude.Tailq.{remove, count, count-remove}
use pkg_varnish.Prelude.Adjacent.{On, IsOnce, Adjacent, Adjacent-map}
use pkg_varnish.Smf.{Smf, SmfSc, is_at, is_contiguous, insfree, free_smf}
use pkg_varnish.Smf.Lists.{home, IsListed, IsLoose, placed, insfree-IsListed}
use pkg_varnish.Smf.Ranges.{
  is_mergeable, true-ne-false, AreMerged, AreMergedBut, IsFree, SameFree, covered,
}

-- The ranges lie one behind the other and are merged where they can be, each is a number of pages,
-- and each is on the list that it belongs on.
abbrev pub IsSmfSc : SmfSc → Type 0
IsSmfSc sc = IsListed none sc × Adjacent (AreMerged sc) sc.order

-- What is read of a range by its neighbours.
abbrev SameRange : Smf → Smf → Type 0
SameRange s t = (t.alloc ≡ s.alloc) × (t.size ≡ s.size) × (t.offset ≡ s.offset) × (t.ptr ≡ s.ptr)

is_mergeable-same :
    (s t s' t' : Smf)
    → SameRange s s'
    → SameRange t t'
    → is_mergeable s t ≡ false
    → is_mergeable s' t' ≡ false
unfolding is_mergeable is_contiguous
is_mergeable-same s t s' t' a b m = ground arith

pub same-AreMerged :
    (sc sc' : SmfSc) (l : List ℕ)
    → IsOnce l
    → ((q : ℕ) → SameRange (sc.smf q) (sc'.smf q))
    → Adjacent (AreMerged sc) l
    → Adjacent (AreMerged sc') l
same-AreMerged sc sc' l o same = Adjacent-map (AreMerged sc) (AreMerged sc') l o λ x y hx hy d r.
    let a = same x in
    let b = same y in
    (omega arith, is_mergeable-same (sc.smf x) (sc.smf y) (sc'.smf x) (sc'.smf y) a b r.1)

pub insfree-IsSmfSc :
    (sc : SmfSc) (sp : ℕ)
    → IsLoose sc sp
    → Adjacent (AreMerged sc) sc.order
    → (l : List ℕ) × (insfree sc sp ≡ some (placed sc sp l)) × IsSmfSc (placed sc sp l)
insfree-IsSmfSc sc sp loose m =
    let (l, e, v) = insfree-IsListed sc sp loose in
    (
      l,
      e,
      (v, same-AreMerged sc (placed sc sp l) sc.order v.once (λ q. unfold write in ground arith) m),
    )

-- The range is free, and on no list yet.
abbrev released : SmfSc → ℕ → SmfSc
released sc sp = record sc {
  used = remove sp sc.used;
  smf = write sc.smf sp record (sc.smf sp) { alloc = false };
}

released-IsLoose :
    (sc : SmfSc) (sp : ℕ)
    → IsListed none sc
    → On sc.order sp
    → (sc.smf sp).alloc ≡ true
    → IsLoose (released sc sp) sp
unfolding write home is_at
released-IsLoose sc sp v on a =
    let f : (sc.smf sp).flist ≡ none = v.homed sp on (λ t. cc) ∙ rw a refl in
    (
      record {
        page = v.page;
        once = v.once;
        sized = λ q h. let s = v.sized q h in ground arith;
        in_use = λ q.
            let u = v.in_use q in let u' = v.in_use sp in ground (arith, count-remove q sp sc.used);
        on_free = λ q b. let g = v.on_free q b in ground arith;
        homed = λ q h n. let g = v.homed q h in ground (arith, ==_iff q sp);
      },
      on,
      ground arith,
      ground arith,
    )

released-AreMergedBut :
    (sc : SmfSc) (sp : ℕ) → IsSmfSc sc → Adjacent (AreMergedBut (released sc sp) sp) sc.order
released-AreMergedBut sc sp (v, m) =
    Adjacent-map (AreMerged sc) (AreMergedBut (released sc sp) sp) sc.order v.once
      (λ x y hx hy d r. (
        unfold write in ground arith,
        λ dx dy.
            rw
              (
                write_else sc.smf sp x record (sc.smf sp) { alloc = false } dx,
                write_else sc.smf sp y record (sc.smf sp) { alloc = false } dy,
              )
              r.1,
      ))
      m

-- The byte at this address is one of the range.
abbrev pub IsIn : Smf → ℕ → Type 0
IsIn s p = (s.ptr ≤ p) × (p < s.ptr + s.size)

released-IsFree :
    (sc : SmfSc) (sp : ℕ)
    → On sc.order sp
    → (sc.smf sp).alloc ≡ true
    → (p : ℕ) → IsFree (released sc sp) p ↔ (IsFree sc p ⊎ IsIn (sc.smf sp) p)
released-IsFree sc sp on used p = (
  λ (q, q_on, a, lo, hi). elim (Bool-cases (q == sp)) [
    | inl here ↦
        let e : q ≡ sp = ground arith in
        let z : (released sc sp).smf sp ≡ record (sc.smf sp) { alloc = false } =
          write_at sc.smf sp _ in
        inr (rw (e, z) at lo, rw (e, z) at hi)
    | inr other ↦
        let z : (released sc sp).smf q ≡ sc.smf q = write_else sc.smf sp q _ (ground arith) in
        inl (covered sc q p q_on (rw z at a, rw z at lo, rw z at hi))
  ],
  λ h. elim h [
    | inl (q, q_on, a, lo, hi) ↦
        let d : q ≢ sp = (λ t. true-ne-false (sym used ∙ ap (λ k. (sc.smf k).alloc) (sym t) ∙ a)) in
        covered (released sc sp) q p q_on (rw (write_else sc.smf sp q _ d) (a, lo, hi))
    | inr (lo, hi) ↦
        covered (released sc sp) sp p on
          (rw (write_at sc.smf sp record (sc.smf sp) { alloc = false }) (refl, lo, hi))
  ],
)

placed-SameFree : (sc : SmfSc) (sp : ℕ) (l : List ℕ) → SameFree sc (placed sc sp l)
unfolding write
placed-SameFree sc sp l p = (
  λ (q, on, a, lo, hi). covered (placed sc sp l) q p on (ground arith, ground arith, ground arith),
  λ (q, on, a, lo, hi). covered sc q p on (ground arith, ground arith, ground arith),
)

pub free_smf-IsSmfSc :
    (sc : SmfSc) (sp : ℕ)
    → IsSmfSc sc
    → On sc.order sp
    → (sc.smf sp).alloc ≡ true
    → (sc' : SmfSc) × (free_smf sc sp ≡ some sc')
      × IsSmfSc sc'
      × ((q : ℕ) → count q sc'.used ≡ (if q == sp then 0 else count q sc.used))
      × ((q : ℕ) → q ≢ sp → (sc.smf q).alloc ≡ true → sc'.smf q ≡ sc.smf q)
      × (sc'.pagesize ≡ sc.pagesize)
      × ((p : ℕ) → IsFree sc' p ↔ (IsFree sc p ⊎ IsIn (sc.smf sp) p))
unfolding free_smf
free_smf-IsSmfSc sc sp (v, m) on a =
    let s = v.sized sp on in
    let t : ((sc.smf sp).alloc && ltb 0 (sc.smf sp).size && (sc.smf sp).size % sc.pagesize == 0)
        ≡ true =
      ground arith in
    let sc1 = released sc sp in
    let (sc2, e2, loose2, m2, (used2, page2, same2, free2)) =
      merge_next_lem sc1 sp (released-IsLoose sc sp v on a) (released-AreMergedBut sc sp (v, m)) in
    let (p3, sc3, e3, loose3, m3, (used3, page3, same3, free3)) = merge_prev_lem sc2 sp loose2 m2 in
    let (l, e4, is) = insfree-IsSmfSc sc3 p3 loose3 m3 in
    (
      placed sc3 p3 l,
      rw t (rw e2 (rw e3 e4)),
      is,
      λ q. ap (count q) (used3 ∙ used2) ∙ gone q,
      λ q d f.
          let e1 : sc1.smf q ≡ sc.smf q = write_else sc.smf sp q _ d in
          let e2' = same2 q (ap (λ s. s.alloc) e1 ∙ f) ∙ e1 in
          let e3' = same3 q (ap (λ s. s.alloc) e2' ∙ f) ∙ e2' in
          let out : q ≢ p3 = (λ t.
            true-ne-false
              (sym f ∙ ap (λ s. s.alloc) (sym e3') ∙ ap (λ k. (sc3.smf k).alloc) t ∙ loose3.2)) in
          write_else sc3.smf p3 q _ out ∙ e3',
      page3 ∙ page2,
      λ p.
          let (l1, r1) = released-IsFree sc sp on a p in
          let (l2, r2) = free2 p in
          let (l3, r3) = free3 p in
          let (l4, r4) = placed-SameFree sc3 p3 l p in
          (λ h. l1 (r2 (r3 (r4 h))), λ h. l4 (l3 (l2 (r1 h)))),
    )
  where
    gone : (q : ℕ) → count q (remove sp sc.used) ≡ (if q == sp then 0 else count q sc.used)
    gone q = let u = v.in_use q in let o = v.once q in ground (arith, count-remove q sp sc.used)
