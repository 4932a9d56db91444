-- ===== src/Smf/Trimming.antt =====
-- trim_smf of bin/varnishd/storage_file.c.
use pkg_varnish.Prelude.{
  ℕ, ◌%◌, ◌<◌, ◌≡◌, refl, sym, ap, ◌∙◌, ◌≢◌, inl, inr, true, ◌&&◌, none, some, [], ◌∷◌, arith, ltb,
  ◌==◌, ==_iff, Bool-cases,
}
use pkg_varnish.Smf.Fronts.{fresh-ne, fresh_at, used_mergeable, behind_front}
use pkg_varnish.Prelude.Insertion.{Adjacent-insert_after, count-insert_after}
use mathlib.Core.Path.{subst}
use pkg_varnish.Prelude.Cells.{write, write_at, write_else}
use pkg_varnish.Prelude.Tailq.{count, count-append, insert_after}
use pkg_varnish.Prelude.Adjacent.{On, Adjacent}
use pkg_varnish.Smf.{SmfSc, is_at}
use pkg_varnish.Smf.Storage.{trimmed, trim_smf}
use pkg_varnish.Smf.Lists.{home, IsListed}
use pkg_varnish.Smf.Merging.{multiple_sub}
use pkg_varnish.Smf.Ranges.{AreMerged}
use pkg_varnish.Smf.Freeing.{IsSmfSc, free_smf-IsSmfSc}

module _ (sc : SmfSc) (sp bytes new : ℕ) (is : IsSmfSc sc) (on : On sc.order sp)
    (used : (sc.smf sp).alloc ≡ true) (fresh : count new sc.order ≡ 0)
    (pages : bytes % sc.pagesize ≡ 0) (some_bytes : 0 < bytes) (lt : bytes < (sc.smf sp).size) where
  trimmed-IsListed : IsListed none (trimmed sc sp bytes new)
  unfolding trimmed write home count is_at
  trimmed-IsListed =
      let v = is.0 in
      let c = λ (q : ℕ). count-insert_after q sp new sc.order (omega (arith, on)) in
      let s = v.sized sp on in
      let m = multiple_sub sc.pagesize (sc.smf sp).size bytes (omega arith) s.1 pages in
      let ne : new ≢ sp = fresh-ne sc sp new on fresh in
      let l : (sc.smf sp).flist ≡ none = v.homed sp on (λ t. cc) ∙ rw used refl in
      record {
        page = v.page;
        once = λ q. let o = v.once q in ground (arith, c q, fresh_at sc.order new q fresh);
        sized = λ q h. let z = v.sized q in ground (arith, c q);
        in_use = λ q.
            let u = v.in_use q in
            ground (arith, c q, count-append q sc.used (new ∷ []), fresh_at sc.order new q fresh);
        on_free =
            λ q b. let f = v.on_free q b in ground (arith, c q, fresh_at sc.order new q fresh);
        homed = λ q h n. let f = v.homed q in ground (arith, c q, ==_iff q sp);
      }

  trimmed-new : (trimmed sc sp bytes new).smf new ≡ behind_front (sc.smf sp) bytes
  unfolding trimmed
  trimmed-new =
      write_else (write sc.smf new _) sp new _ (fresh-ne sc sp new on fresh) ∙ write_at sc.smf new _

  trimmed_sp : (trimmed sc sp bytes new).smf sp ≡ record (sc.smf sp) { size = bytes }
  unfolding trimmed
  trimmed_sp = write_at (write sc.smf new _) sp _

  trimmed_else : (q : ℕ) → On sc.order q → q ≢ sp → (trimmed sc sp bytes new).smf q ≡ sc.smf q
  unfolding trimmed
  trimmed_else q q_on d =
      write_else (write sc.smf new _) sp q _ d
      ∙ write_else sc.smf new q _ (λ t. fresh-ne sc q new q_on fresh (sym t))

  trimmed-AreMerged : Adjacent (AreMerged (trimmed sc sp bytes new)) (insert_after sp new sc.order)
  trimmed-AreMerged =
      Adjacent-insert_after (AreMerged sc) (AreMerged (trimmed sc sp bytes new)) sp new sc.order
        is.0.once
        (λ x y hx hy d dx r. elim (Bool-cases (y == sp)) [
          | inl here ↦
              let e : y ≡ sp = ground arith in
              let r' : AreMerged sc x sp = subst (AreMerged sc x) e r in
              rw (trimmed_else x hx dx, e, trimmed_sp)
                (r'.0, (used_mergeable record (sc.smf sp) { size = bytes } (sc.smf x) used).1)
          | inr other ↦ rw (trimmed_else x hx dx, trimmed_else y hy (ground arith)) r
        ])
        (λ y hy d r.
          rw (trimmed-new, trimmed_else y hy d)
            (omega arith, (used_mergeable (behind_front (sc.smf sp) bytes) (sc.smf y) used).0))
        (rw (trimmed_sp, trimmed-new)
          (
            omega arith,
            (used_mergeable record (sc.smf sp) { size = bytes } (behind_front (sc.smf sp) bytes)
                used).0,
          ))
        is.1

  -- The tail of the range is no longer in use, and nothing else that is changes.
  abbrev pub Trims : SmfSc → Type 0
  Trims sc' =
      IsSmfSc sc'
      × (sc'.smf sp ≡ record (sc.smf sp) { size = bytes })
      × ((q : ℕ) → count q sc'.used ≡ count q sc.used)
      × ((q : ℕ) → On sc.order q → q ≢ sp → (sc.smf q).alloc ≡ true → sc'.smf q ≡ sc.smf q)
      × (sc'.pagesize ≡ sc.pagesize)

  -- trim_smf of storage_file.c: where the ranges lie one behind the other, merged where they can be,
  -- and are on the lists that they belong on, a range in use is cut to fewer pages, but at least one,
  -- with a new address for the rest. No assertion fails, the ranges and lists are as before, the range
  -- keeps its start, the same ranges are in use, and no other of them changes.
  pub trim_smf-Trims : (sc' : SmfSc) × (trim_smf sc sp bytes new ≡ some sc') × Trims sc'
  unfolding trim_smf trimmed
  trim_smf-Trims =
      let v = is.0 in
      let sc1 = trimmed sc sp bytes new in
      let on1 : On (insert_after sp new sc.order) new =
        let c = count-insert_after new sp new sc.order (omega (arith, on)) in ground arith in
      let ne = fresh-ne sc sp new on fresh in
      let used1 = ap (λ s. s.alloc) trimmed-new ∙ used in
      let s = v.sized sp on in
      let (sc', e, is', u, same, page, _) =
        free_smf-IsSmfSc sc1 new (trimmed-IsListed, trimmed-AreMerged) on1 used1 in
      let t1 : ((sc.smf sp).alloc && ltb 0 bytes && ltb bytes (sc.smf sp).size) ≡ true =
        ground arith in
      let t2 : (bytes % sc.pagesize == 0 && (sc.smf sp).size % sc.pagesize == 0) ≡ true =
        ground arith in
      (
        sc',
        rw t1 (rw t2 e),
        (
          is',
          same sp (λ t. ne (sym t)) (ap (λ s. s.alloc) trimmed_sp ∙ used) ∙ trimmed_sp,
          λ q.
              let f = v.in_use q in
              unfold count in
              ground (arith, u q, count-append q sc.used (new ∷ []), fresh_at sc.order new q fresh),
          λ q q_on d f.
              same q (λ t. fresh-ne sc q new q_on fresh (sym t))
                (ap (λ s. s.alloc) (trimmed_else q q_on d) ∙ f)
              ∙ trimmed_else q q_on d,
          page,
        ),
      )
