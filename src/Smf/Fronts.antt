-- ===== src/Smf/Fronts.antt =====
-- The ranges that alloc_smf of bin/varnishd/storage_file.c gives: a whole one, or the front of one.
use pkg_varnish.Prelude.{
  ℕ, ◌+◌, ◌-◌, ◌%◌, ◌≤◌, ◌<◌, ◌≡◌, refl, sym, ◌∙◌, ◌≢◌, inl, inr, true, false, none, List, [], ◌∷◌,
  ◌++◌, arith, ◌==◌, ==_iff, Bool-cases,
}
use pkg_varnish.Prelude.Insertion.{Adjacent-insert_before, count-insert_before}
use mathlib.Core.Path.{subst}
use pkg_varnish.Prelude.Cells.{write, write_at, write_else}
use pkg_varnish.Prelude.Tailq.{count, count-append, insert_before}
use pkg_varnish.Prelude.Adjacent.{On, IsOnce, Adjacent, Adjacent-map}
use pkg_varnish.Smf.{Smf, SmfSc, is_at, is_contiguous, more_smf}
use pkg_varnish.Smf.Lists.{home, IsListed, IsLoose}
use pkg_varnish.Smf.Merging.{multiple_sub}
use pkg_varnish.Smf.Ranges.{is_mergeable, AreMerged}

abbrev pub filled : SmfSc → ℕ → SmfSc
filled sc sp = record sc {
  smf = write sc.smf sp record (sc.smf sp) { alloc = true };
  used = sc.used ++ sp ∷ [];
}

pub filled-IsListed : (sc : SmfSc) (sp : ℕ) → IsLoose sc sp → IsListed none (filled sc sp)
unfolding write home count is_at
filled-IsListed sc sp (v, on, a, l) = record {
  page = v.page;
  once = v.once;
  sized = λ q h. let s = v.sized q h in ground arith;
  in_use = λ q. let u = v.in_use q in ground (arith, count-append q sc.used (sp ∷ []));
  on_free = λ q b. let f = v.on_free q b in ground arith;
  homed = λ q h n. let f = v.homed q h in ground (arith, ==_iff q sp);
}

is_mergeable-used :
    (s t : Smf)
    → is_mergeable s t ≡ false
    → (is_mergeable record s { alloc = true } t ≡ false)
      × (is_mergeable s record t { alloc = true } ≡ false)
unfolding is_mergeable
is_mergeable-used s t m = ground arith

pub filled-AreMerged :
    (sc : SmfSc) (sp : ℕ)
    → IsOnce sc.order
    → Adjacent (AreMerged sc) sc.order
    → Adjacent (AreMerged (filled sc sp)) sc.order
filled-AreMerged sc sp o =
    Adjacent-map (AreMerged sc) (AreMerged (filled sc sp)) sc.order o λ x y hx hy d r. (
      unfold write in ground arith,
      unfold write in ground (arith, is_mergeable-used (sc.smf x) (sc.smf y) r.1),
    )

-- The front of the range is in use under the new address.
abbrev pub front : SmfSc → ℕ → ℕ → ℕ → SmfSc
front sc sp bytes new =
    let s = sc.smf sp in
    record sc {
      smf =
          write (write sc.smf new record s { size = bytes; alloc = true }) sp
            record s { offset = s.offset + bytes; ptr = s.ptr + bytes; size = s.size - bytes };
      order = insert_before sp new sc.order;
      used = sc.used ++ new ∷ [];
      stats = more_smf sc.stats;
    }

pub fresh-ne : (sc : SmfSc) (sp new : ℕ) → On sc.order sp → count new sc.order ≡ 0 → new ≢ sp
fresh-ne sc sp new on fresh t =
    let e : count sp sc.order ≡ 0 = subst (λ k. count k sc.order ≡ 0) t fresh in
    absurd (omega (arith, on, e))

pub fresh_at : (l : List ℕ) (new q : ℕ) → count new l ≡ 0 → (q == new) ≡ true → count q l ≡ 0
fresh_at l new q h e = let t : new ≡ q = ground arith in subst (λ k. count k l ≡ 0) t h

abbrev pub behind_front : Smf → ℕ → Smf
behind_front s bytes = record s {
  offset = s.offset + bytes;
  ptr = s.ptr + bytes;
  size = s.size - bytes;
}

behind_front-mergeable :
    (s t : Smf) (bytes : ℕ)
    → bytes ≤ s.size
    → is_mergeable s t ≡ false
    → is_mergeable (behind_front s bytes) t ≡ false
unfolding is_mergeable is_contiguous
behind_front-mergeable s t bytes le m = ground arith

pub used_mergeable :
    (s t : Smf) → s.alloc ≡ true → (is_mergeable s t ≡ false) × (is_mergeable t s ≡ false)
unfolding is_mergeable
used_mergeable s t a = ground arith

module _ (sc : SmfSc) (sp bytes new : ℕ) (loose : IsLoose sc sp) (fresh : count new sc.order ≡ 0)
    (pages : bytes % sc.pagesize ≡ 0) (some_bytes : 0 < bytes) (lt : bytes < (sc.smf sp).size) where
  pub front-IsLoose : IsLoose (front sc sp bytes new) sp
  unfolding write home count is_at
  front-IsLoose =
      let v = loose.0 in
      let on = loose.1 in
      let a = loose.2 in
      let l = loose.3 in
      let c = λ (q : ℕ). count-insert_before q sp new sc.order (omega (arith, on)) in
      let s = v.sized sp on in
      let m = multiple_sub sc.pagesize (sc.smf sp).size bytes (omega arith) s.1 pages in
      let ne : new ≢ sp = fresh-ne sc sp new on fresh in
      (
        record {
          page = v.page;
          once = λ q. let o = v.once q in ground (arith, c q, fresh_at sc.order new q fresh);
          sized = λ q h. let z = v.sized q in ground (arith, c q);
          in_use = λ q.
              let u = v.in_use q in
              ground (arith, c q, count-append q sc.used (new ∷ []), fresh_at sc.order new q fresh);
          on_free =
              λ q b. let f = v.on_free q b in ground (arith, c q, fresh_at sc.order new q fresh);
          homed = λ q h n. let f = v.homed q in ground (arith, c q, ==_iff q sp);
        },
        ground (arith, c sp),
        ground arith,
        ground arith,
      )

  front-new : (front sc sp bytes new).smf new ≡ record (sc.smf sp) { size = bytes; alloc = true }
  front-new =
      write_else (write sc.smf new _) sp new _ (fresh-ne sc sp new loose.1 fresh)
      ∙ write_at sc.smf new _

  front_sp : (front sc sp bytes new).smf sp ≡ behind_front (sc.smf sp) bytes
  front_sp = write_at (write sc.smf new _) sp _

  front_else : (q : ℕ) → On sc.order q → q ≢ sp → (front sc sp bytes new).smf q ≡ sc.smf q
  front_else q on d =
      write_else (write sc.smf new _) sp q _ d
      ∙ write_else sc.smf new q _ (λ t. fresh-ne sc q new on fresh (sym t))

  pub front-AreMerged :
      Adjacent (AreMerged sc) sc.order
      → Adjacent (AreMerged (front sc sp bytes new)) (front sc sp bytes new).order
  front-AreMerged =
      Adjacent-insert_before (AreMerged sc) (AreMerged (front sc sp bytes new)) sp new sc.order
        loose.0.once
        (λ x y hx hy d dy r.
          let ey = front_else y hy dy in
          elim (Bool-cases (x == sp)) [
            | inl here ↦
                let e : x ≡ sp = ground arith in
                let r' : AreMerged sc sp y = subst (λ t. AreMerged sc t y) e r in
                rw (e, ey, front_sp)
                  (
                    omega (arith, r'.0),
                    behind_front-mergeable (sc.smf sp) (sc.smf y) bytes (omega arith) r'.1,
                  )
            | inr other ↦ rw (front_else x hx (ground arith), ey) r
          ])
        (λ x hx d r.
          rw (front_else x hx d, front-new)
            (
              r.0,
              (used_mergeable record (sc.smf sp) { size = bytes; alloc = true } (sc.smf x) refl).1,
            ))
        (rw (front-new, front_sp)
          (
            omega arith,
            (used_mergeable record (sc.smf sp) { size = bytes; alloc = true }
                (behind_front (sc.smf sp) bytes) refl).0,
          ))
