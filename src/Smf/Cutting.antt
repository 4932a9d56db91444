-- ===== src/Smf/Cutting.antt =====
-- smf_trim of bin/varnishd/storage_file.c.
use pkg_varnish.Prelude.{
  ℕ, ◌+◌, ◌-◌, ◌%◌, ◌^◌, ◌≤◌, ◌<◌, ◌≡◌, refl, sym, ap, ◌∙◌, inl, inr, true, ◌&&◌, arith, ltb, leb,
  ◌==◌, ltb→lt, Bool-cases,
}
use pkg_varnish.Prelude.Tailq.{count}
use pkg_varnish.Smf.{SmfSc}
use pkg_varnish.Smf.Storage.{Storage, round_up, given_back, smf_trim}
use pkg_varnish.Smf.Freeing.{IsSmfSc}
use pkg_varnish.Smf.Trimming.{trim_smf-Trims}
use pkg_varnish.Smf.Rounding.{round_up_bounds, round_up_least}
use pkg_varnish.Smf.Requests.{Holds, HasPages, counted, Cuts, held_on}

module _ (sc : SmfSc) (k : ℕ) (s : Storage) (is : IsSmfSc sc) (has : HasPages sc k)
    (holds : Holds sc s) (size new : ℕ) (some_bytes : 0 < size) (le : size ≤ s.space)
    (fits : size + sc.pagesize ≤ 2 ^ 32) (fresh : count new sc.order ≡ 0) where
  -- smf_trim of storage_file.c: where the ranges lie one behind the other, merged where they can be,
  -- and are on the lists that they belong on, with pages of a power of two of bytes, storage that is
  -- held is cut to a size of at least one byte that is at most its space and leaves room for a page
  -- below 2^32 bytes, with a new address for the rest. No assertion fails, and the ranges and lists
  -- are as before. The storage has the range and the start that it had, its space is at least the
  -- size and less than a page more, and the storage of other ranges is held as before.
  pub smf_trim-Cuts : Cuts sc s size new
  unfolding smf_trim given_back
  smf_trim-Cuts =
      let (on, a, sz, ptr) = holds in
      let w = 32 - k in
      let r = round_up sc.pagesize size in
      let bounds : (r % sc.pagesize ≡ 0) = rw has.0 (round_up_bounds w k (omega arith) size).0 in
      let least : (size ≤ r) × (r < size + sc.pagesize) =
        let fits' : size + 2 ^ k ≤ 2 ^ 32 = omega (arith, has.0) in
        rw has.0 (round_up_least w k (omega arith) size fits') in
      let t : (ltb 0 size && leb size s.space && leb size (sc.smf s.priv).size) ≡ true =
        ground arith in
      let sc1 : SmfSc = record sc { stats = given_back sc.stats ((sc.smf s.priv).size - r) } in
      elim (Bool-cases (ltb r (sc.smf s.priv).size)) [
        | inl cut ↦
            let lt = ltb→lt r (sc.smf s.priv).size cut in
            let (sc', e, (is', e', used, same, page)) =
              trim_smf-Trims sc1 s.priv r new (counted sc sc1.stats is) on a fresh bounds
                (omega arith) lt in
            let t' : ((sc'.smf s.priv).size == r) ≡ true =
              let z = ap (λ x. x.size) e' in ground arith in
            (
              record s { space = r },
              sc',
              rw t (rw cut (rw e (rw t' refl))),
              is',
              (
                let u = is.0.in_use s.priv in
                    let u' = is'.0.in_use s.priv in let c = used s.priv in ground arith,
                ap (λ x. x.alloc) e' ∙ a,
                sym (ap (λ x. x.size) e'),
                ptr ∙ sym (ap (λ x. x.ptr) e'),
              ),
              refl,
              refl,
              refl,
              least.0,
              least.1,
              λ t h d.
                  held_on sc sc' t is.0 is'.0 (omega (arith, used t.priv)) (same t.priv h.0 d h.1)
                    h,
              page,
            )
        | inr whole ↦ (
          s,
          sc,
          rw t (rw whole refl),
          is,
          holds,
          refl,
          refl,
          refl,
          le,
          ground arith,
          λ t h d. h,
          refl,
        )
      ]
