-- ===== src/Smf/Allocating.antt =====
-- alloc_smf of bin/varnishd/storage_file.c.
use pkg_varnish.Prelude.{
  ℕ, ◌+◌, ◌%◌, ◌≤◌, ◌<◌, ◌≡◌, refl, sym, ap, ◌∙◌, ◌≢◌, ◌⊎◌, inl, inr, true, false, Option, none,
  some, List, [], ◌∷◌, arith, leb, ◌==◌, if◌then◌else◌, Bool-cases,
}
use pkg_varnish.Prelude.Insertion.{count-insert_before}
use pkg_varnish.Prelude.Cells.{write, write_at, write_else}
use pkg_varnish.Prelude.Tailq.{count, count-append}
use pkg_varnish.Prelude.Adjacent.{On, Adjacent}
use pkg_varnish.Smf.{Smf, SmfSc, choose, split, alloc_found, alloc_smf}
use pkg_varnish.Smf.Lists.{IsListed, placed}
use pkg_varnish.Smf.Merging.{taken, remfree_eq, taken-IsLoose}
use pkg_varnish.Smf.Ranges.{true-ne-false, AreMerged}
use pkg_varnish.Smf.Freeing.{IsSmfSc, same-AreMerged, insfree-IsSmfSc}
use pkg_varnish.Smf.Choosing.{IsChosen, choose-IsChosen}
use pkg_varnish.Smf.Fronts.{
  filled, filled-IsListed, filled-AreMerged, front, fresh-ne, front-IsLoose, front-AreMerged,
}

-- The range given is the front of a free one, and nothing else that is in use changes.
abbrev pub IsFront : SmfSc → SmfSc → ℕ → ℕ → ℕ → Type 0
IsFront sc sc' bytes f sp =
    (On sc.order f × ((sc.smf f).alloc ≡ false) × (bytes ≤ (sc.smf f).size))
    × (On sc'.order sp
        × (sc'.smf sp ≡ record {
          alloc = true;
          size = bytes;
          offset = (sc.smf f).offset;
          ptr = (sc.smf f).ptr;
          flist = none;
        }))
    × ((q : ℕ) → count q sc'.used ≡ count q sc.used + (if q == sp then 1 else 0))
    × ((q : ℕ) → On sc.order q → (sc.smf q).alloc ≡ true → sc'.smf q ≡ sc.smf q)
    × (sc'.pagesize ≡ sc.pagesize)

abbrev pub Allocates : SmfSc → ℕ → ℕ → Type 0
Allocates sc bytes new =
    ((alloc_smf sc bytes new ≡ some (none, sc)) × IsChosen sc bytes none)
    ⊎ ((sp : ℕ) × (f : ℕ) × (sc' : SmfSc) × (alloc_smf sc bytes new ≡ some (some sp, sc'))
        × IsSmfSc sc'
        × IsFront sc sc' bytes f sp)

-- All of the range is in use.
module _ (sc : SmfSc) (f : ℕ) (v : IsListed none sc) (m : Adjacent (AreMerged sc) sc.order)
    (on : On sc.order f) (a : (sc.smf f).alloc ≡ false) where
  taken_f : (taken sc f).smf f ≡ record (sc.smf f) { flist = none }
  taken_f = write_at sc.smf f _

  taken-AreMerged : Adjacent (AreMerged (taken sc f)) sc.order
  taken-AreMerged =
      same-AreMerged sc (taken sc f) sc.order v.once (λ q. unfold write in ground arith) m

  -- A range in use is not the one found.
  in_use-ne : (q : ℕ) → (sc.smf q).alloc ≡ true → q ≢ f
  in_use-ne q u t = true-ne-false (sym u ∙ ap (λ k. (sc.smf k).alloc) t ∙ a)

  taken_else : (q : ℕ) → (sc.smf q).alloc ≡ true → (taken sc f).smf q ≡ sc.smf q
  taken_else q u = write_else sc.smf f q _ (in_use-ne q u)

  filled-IsFront :
      (bytes : ℕ) → (sc.smf f).size ≡ bytes → IsFront sc (filled (taken sc f) f) bytes f f
  filled-IsFront bytes e = (
    (on, a, omega (arith, e)),
    (
      on,
      write_at (taken sc f).smf f _
          ∙ ap (λ (s : Smf). let r : Smf = record s { alloc = true } in r) taken_f
          ∙ ap
              (λ (k : ℕ).
                let r : Smf = record (sc.smf f) { alloc = true; flist = none; size = k } in r)
              e,
    ),
    λ q. unfold count in ground (arith, count-append q sc.used (f ∷ [])),
    λ q hq u. write_else (taken sc f).smf f q _ (in_use-ne q u) ∙ taken_else q u,
    refl,
  )

  split-IsFront :
      (bytes new : ℕ) (l : List ℕ)
      → count new sc.order ≡ 0
      → bytes < (sc.smf f).size
      → IsFront sc (placed (front (taken sc f) f bytes new) f l) bytes f new
  split-IsFront bytes new l fresh lt =
      let sc1 = taken sc f in
      let sc2 = front sc1 f bytes new in
      let ne = fresh-ne sc f new on fresh in
      let size = ap (λ s. s.size) taken_f in
      (
        (on, a, omega arith),
        (
          let c = count-insert_before new f new sc.order (omega (arith, on)) in ground arith,
          write_else sc2.smf f new _ ne
              ∙ write_else (write sc1.smf new _) f new _ ne
              ∙ write_at sc1.smf new _
              ∙ ap (λ (s : Smf). let r : Smf = record s { size = bytes; alloc = true } in r)
                  taken_f,
        ),
        λ q. unfold count in ground (arith, count-append q sc.used (new ∷ [])),
        λ q hq u.
            write_else sc2.smf f q _ (in_use-ne q u)
            ∙ write_else (write sc1.smf new _) f q _ (in_use-ne q u)
            ∙ write_else sc1.smf new q _ (λ t. fresh-ne sc q new hq fresh (sym t))
            ∙ taken_else q u,
        refl,
      )

-- alloc_smf of storage_file.c: where the ranges lie one behind the other, merged where they can be,
-- and are on the lists that they belong on, a request for a number of pages and an address that is
-- new are answered without a failed assertion. Either no free range is large enough, and nothing
-- changes, or the front of a free range is given, of the bytes asked for, which is on the used list
-- from then on; no other range in use changes, and the ranges and lists are as before.
pub alloc_smf-Allocates :
    (sc : SmfSc) (bytes new : ℕ)
    → IsSmfSc sc
    → 0 < bytes
    → bytes % sc.pagesize ≡ 0
    → count new sc.order ≡ 0
    → Allocates sc bytes new
unfolding alloc_smf alloc_found split
alloc_smf-Allocates sc bytes new (v, m) pos pages fresh =
    answer (choose sc bytes) refl (choose-IsChosen sc bytes v pages)
  where
    answer : (o : Option ℕ) → choose sc bytes ≡ o → IsChosen sc bytes o → Allocates sc bytes new
    answer none e c = inl (rw (pages, e) refl, c)
    answer (some f) e (on, a, le) =
        let sc1 = taken sc f in
        let loose1 = taken-IsLoose sc f v on a in
        let m1 = taken-AreMerged sc f v m on a in
        let size = ap (λ s. s.size) (taken_f sc f v m on a) in
        let t : leb bytes (sc.smf f).size ≡ true = ground arith in
        let r = remfree_eq sc f a (v.homed f on (λ t. cc)) in
        elim (Bool-cases ((sc1.smf f).size == bytes)) [
          | inl whole ↦ inr (
            f,
            f,
            filled sc1 f,
            rw (pages, e) (rw t (rw r (rw whole refl))),
            (filled-IsListed sc1 f loose1, filled-AreMerged sc1 f v.once m1),
            filled-IsFront sc f v m on a bytes (ground arith),
          )
          | inr more ↦
              let lt : bytes < (sc.smf f).size = ground arith in
              let lt1 : bytes < (sc1.smf f).size = omega arith in
              let loose2 = front-IsLoose sc1 f bytes new loose1 fresh pages pos lt1 in
              let m2 = front-AreMerged sc1 f bytes new loose1 fresh pages pos lt1 m1 in
              let (l, e2, is) = insfree-IsSmfSc (front sc1 f bytes new) f loose2 m2 in
              inr (
                new,
                f,
                placed (front sc1 f bytes new) f l,
                rw (pages, e) (rw t (rw r (rw more (rw e2 refl)))),
                is,
                split-IsFront sc f v m on a bytes new l fresh lt,
              )
        ]
