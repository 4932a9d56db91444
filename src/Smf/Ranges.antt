-- ===== src/Smf/Ranges.antt =====
-- The order of the ranges of bin/varnishd/storage_file.c, and what the merges of free_smf leave.
use pkg_varnish.Prelude.{
  ℕ, ◌+◌, ◌≤◌, ◌<◌, ◌↔◌, ◌≡◌, sym, ap, ◌∙◌, ◌≢◌, inl, inr, Bool, true, false, not, ◌&&◌, Option,
  none, some, arith, ◌==◌, Bool-cases, ltb, ltb→lt,
}
use mathlib.Core.Path.{subst}
use pkg_varnish.Prelude.Cells.{write}
use pkg_varnish.Prelude.Tailq.{next, remove, count, count-remove}
use pkg_varnish.Prelude.Adjacent.{On, IsOnce, Adjacent, Adjacent-map_next}
use pkg_varnish.Smf.{Smf, SmfSc, Stats, is_contiguous, merge_next}
use pkg_varnish.Smf.Lists.{IsListed, IsLoose}
use pkg_varnish.Smf.Merging.{taken, joined}

-- Free, and without a gap between them.
unfoldable pub is_mergeable : Smf → Smf → Bool
is_mergeable s t = not s.alloc && not t.alloc && is_contiguous s t

abbrev pub IsBefore : SmfSc → ℕ → ℕ → Type 0
IsBefore sc x y = (sc.smf x).ptr + (sc.smf x).size ≤ (sc.smf y).ptr

-- One behind the other, and merged if they can be.
abbrev pub AreMerged : SmfSc → ℕ → ℕ → Type 0
AreMerged sc x y = IsBefore sc x y × (is_mergeable (sc.smf x) (sc.smf y) ≡ false)

-- But for one range, or for it and the range before it.
abbrev pub AreMergedBut : SmfSc → ℕ → ℕ → ℕ → Type 0
AreMergedBut sc sp x y =
    IsBefore sc x y × (x ≢ sp → y ≢ sp → is_mergeable (sc.smf x) (sc.smf y) ≡ false)

abbrev pub AreMergedBehind : SmfSc → ℕ → ℕ → ℕ → Type 0
AreMergedBehind sc sp x y = IsBefore sc x y × (y ≢ sp → is_mergeable (sc.smf x) (sc.smf y) ≡ false)

-- The byte at this address is one of a free range.
abbrev pub IsFree : SmfSc → ℕ → Type 0
IsFree sc p =
    (q : ℕ) × On sc.order q
    × ((sc.smf q).alloc ≡ false)
    × ((sc.smf q).ptr ≤ p)
    × (p < (sc.smf q).ptr + (sc.smf q).size)

-- What a free range says of such a byte.
abbrev pub Covers : Smf → ℕ → Type 0
Covers s p = (s.alloc ≡ false) × (s.ptr ≤ p) × (p < s.ptr + s.size)

pub covered : (sc : SmfSc) (q p : ℕ) → On sc.order q → Covers (sc.smf q) p → IsFree sc p
covered sc q p on (a, lo, hi) = (q, on, a, lo, hi)

abbrev pub SameFree : SmfSc → SmfSc → Type 0
SameFree sc sc' = (p : ℕ) → IsFree sc p ↔ IsFree sc' p

-- What a merge leaves alone: the ranges in use, and the bytes that are free.
abbrev pub Keeps : SmfSc → SmfSc → Type 0
Keeps sc sc' =
    (sc'.used ≡ sc.used)
    × (sc'.pagesize ≡ sc.pagesize)
    × ((q : ℕ) → (sc.smf q).alloc ≡ true → sc'.smf q ≡ sc.smf q)
    × SameFree sc sc'

pub unsome : {a b : ℕ} → ◌≡◌ {A = Option ℕ} (some a) (some b) → b ≡ a
unsome h = cc

pub true-ne-false : ◌≡◌ {A = Bool} true false → ⊥
true-ne-false h = cc

-- What merge_next gives.
abbrev pub MergesNext : SmfSc → ℕ → Type 0
MergesNext sc sp =
    (sc' : SmfSc) × (merge_next sc sp (next sp sc.order) ≡ some sc')
    × IsLoose sc' sp
    × Adjacent (AreMergedBehind sc' sp) sc'.order
    × Keeps sc sc'

pub not_merged :
    (sc : SmfSc) (sp : ℕ)
    → IsLoose sc sp
    → Adjacent (AreMergedBut sc sp) sc.order
    → ((n : ℕ) → next sp sc.order ≡ some n → is_mergeable (sc.smf sp) (sc.smf n) ≡ false)
    → Adjacent (AreMergedBehind sc sp) sc.order
not_merged sc sp (v, on, a, l) m none_behind =
    Adjacent-map_next (AreMergedBut sc sp) (AreMergedBehind sc sp) sc.order v.once
      (λ x y hx hy n r. (
        r.0,
        λ d. elim (Bool-cases (x == sp)) [
          | inl here ↦
              let e : x ≡ sp = ground arith in
              subst (λ t. is_mergeable (sc.smf t) (sc.smf y) ≡ false) (sym e)
                (none_behind y (ap (λ t. next t sc.order) (sym e) ∙ n))
          | inr other ↦ r.1 (ground arith) d
        ],
      ))
      m

pub mergeable_first :
    (s t : Smf) → s.alloc ≡ false → is_mergeable s t ≡ (not t.alloc && is_contiguous s t)
unfolding is_mergeable
mergeable_first s t a = ground arith

pub restated :
    (but : Option ℕ) (sc : SmfSc) (stats : Stats)
    → IsListed but sc
    → IsListed but record sc { stats = stats }
restated but sc stats v = record {
  page = v.page;
  once = v.once;
  sized = v.sized;
  in_use = v.in_use;
  on_free = v.on_free;
  homed = v.homed;
}

-- The facts of two free ranges without a gap.
pub mergeable_lem :
    (s t : Smf)
    → is_mergeable s t ≡ true
    → (s.alloc ≡ false)
      × (t.alloc ≡ false)
      × (is_contiguous s t ≡ true)
      × (t.ptr ≡ s.ptr + s.size)
      × (t.offset ≡ s.offset + s.size)
unfolding is_mergeable is_contiguous
mergeable_lem s t h = ground arith

-- A range in place of itself and the next.
widened :
    (s n y s' y' : Smf)
    → is_mergeable s n ≡ true
    → s' ≡ record s { size = s.size + n.size; flist = none }
    → y' ≡ y
    → is_mergeable n y ≡ false
    → is_mergeable s' y' ≡ false
unfolding is_mergeable is_contiguous
widened s n y s' y' h e f g = ground arith

-- The size of the second range does not matter.
same_start :
    (s t : Smf) (size : ℕ) (flist : Option ℕ)
    → is_mergeable s t ≡ false
    → is_mergeable s record t { size = size; flist = flist } ≡ false
unfolding is_mergeable is_contiguous
same_start s t size flist m = ground arith

module _ (sc : SmfSc) (sp n : ℕ) (ne : n ≢ sp) where
  -- The fields after the merge, in either order of its steps.
  abbrev Widens : SmfSc → Type 0
  Widens sc' =
      (sc'.smf sp ≡ record (sc.smf sp) { size = (sc.smf sp).size + (sc.smf n).size; flist = none })
      × ((q : ℕ) → q ≢ sp → q ≢ n → sc'.smf q ≡ sc.smf q)

  pub next_Widens : (sc.smf sp).flist ≡ none → Widens (taken (joined sc sp n) n)
  unfolding write
  next_Widens l = (
    let e : (sp == n) ≡ false = ground arith in
        let f : (sp == sp) ≡ true = ground arith in ground arith,
    λ q d e. ground arith,
  )

  pub prev_Widens : Widens (joined (taken sc sp) sp n)
  unfolding write
  prev_Widens = (
    let e : (n == sp) ≡ false = ground arith in
        let f : (sp == sp) ≡ true = ground arith in ground arith,
    λ q d e. ground arith,
  )

  module _ (sc' : SmfSc) (w : Widens sc') (yes' : is_mergeable (sc.smf sp) (sc.smf n) ≡ true) where
    pub widened_else :
        (x y : ℕ)
        → x ≢ sp
        → x ≢ n
        → y ≢ n
        → IsBefore sc x y
        → IsBefore sc' x y
          × (is_mergeable (sc.smf x) (sc.smf y) ≡ false
              → is_mergeable (sc'.smf x) (sc'.smf y) ≡ false)
    widened_else x y d1 d2 d3 r = elim (Bool-cases (y == sp)) [
      | inl here ↦
          let e : y ≡ sp = ground arith in
          let r' : IsBefore sc x sp = subst (λ t. IsBefore sc x t) e r in
          rw (w.1 x d1 d2, e, w.0) (r', λ m. same_start (sc.smf x) (sc.smf sp) _ none m)
      | inr other ↦ rw (w.1 x d1 d2, w.1 y (ground arith) d3) (r, λ m. m)
    ]

    pub widened_behind :
        (y : ℕ)
        → y ≢ sp
        → y ≢ n
        → IsBefore sc n y
        → is_mergeable (sc.smf n) (sc.smf y) ≡ false
        → IsBefore sc' sp y × (is_mergeable (sc'.smf sp) (sc'.smf y) ≡ false)
    widened_behind y d1 d2 r m =
        let (_, _, _, p, _) = mergeable_lem (sc.smf sp) (sc.smf n) yes' in
        (
          rw (w.0, w.1 y d1 d2) (omega arith),
          widened (sc.smf sp) (sc.smf n) (sc.smf y) (sc'.smf sp) (sc'.smf y) yes' w.0 (w.1 y d1 d2)
              m,
        )

    pub widened_same : (q : ℕ) → (sc.smf q).alloc ≡ true → sc'.smf q ≡ sc.smf q
    widened_same q f =
        let (free, an, _, _, _) = mergeable_lem (sc.smf sp) (sc.smf n) yes' in
        w.1 q (λ t. true-ne-false (sym f ∙ ap (λ k. (sc.smf k).alloc) t ∙ free))
          (λ t. true-ne-false (sym f ∙ ap (λ k. (sc.smf k).alloc) t ∙ an))

    module _ (once : IsOnce sc.order) (sp_on : On sc.order sp) (n_on : On sc.order n)
        (out : sc'.order ≡ remove n sc.order) where
      On-remove : (q : ℕ) → On sc.order q → q ≢ n → On sc'.order q
      On-remove q on d = rw out (ground (arith, count-remove q n sc.order))

      remove-On : (q : ℕ) → On sc'.order q → On sc.order q × (q ≢ n)
      remove-On q on =
          let on' : count q (remove n sc.order) ≡ 1 = rw out at on in
          ground (arith, count-remove q n sc.order, once n)

      pub widened-SameFree : SameFree sc sc'
      widened-SameFree p = (
        λ (q, on, a, lo, hi). elim (Bool-cases (q == n)) [
          | inl here ↦
              let e : q ≡ n = ground arith in
              let (free, _, _, end, _) = mergeable_lem (sc.smf sp) (sc.smf n) yes' in
              let lo' = rw e at lo in
              let hi' = rw e at hi in
              covered sc' sp p (On-remove sp sp_on (λ t. ne (sym t)))
                (rw w.0 (free, omega arith, omega arith))
          | inr other ↦ elim (Bool-cases (q == sp)) [
            | inl start ↦
                let e : q ≡ sp = ground arith in
                let a' = rw e at a in
                let lo' = rw e at lo in
                let hi' = rw e at hi in
                covered sc' sp p (On-remove sp sp_on (λ t. ne (sym t)))
                  (rw w.0 (a', lo', omega arith))
            | inr else' ↦
                covered sc' q p (On-remove q on (ground arith))
                  (rw (w.1 q (ground arith) (ground arith)) (a, lo, hi))
          ]
        ],
        λ (q, on, a, lo, hi).
            let (on', d) = remove-On q on in
            elim (Bool-cases (q == sp)) [
              | inl start ↦
                  let e : q ≡ sp = ground arith in
                  let (free, an, _, end, _) = mergeable_lem (sc.smf sp) (sc.smf n) yes' in
                  let lo' = rw (e, w.0) at lo in
                  let hi' = rw (e, w.0) at hi in
                  elim (Bool-cases (ltb p ((sc.smf sp).ptr + (sc.smf sp).size))) [
                    | inl first ↦ (sp, sp_on, free, lo', ltb→lt p _ first)
                    | inr second ↦ (n, n_on, an, ground arith, ground arith)
                  ]
              | inr else' ↦
                  let same = w.1 q (ground arith) d in
                  (q, on', rw same at a, rw same at lo, rw same at hi)
            ],
      )
