-- ===== src/Smf/Opening.antt =====
-- new_smf of bin/varnishd/storage_file.c.
use pkg_varnish.Prelude.{
  ℕ, ◌+◌, ◌%◌, ◌≤◌, ◌<◌, ◌≡◌, ◌≢◌, ◌↔◌, sym, ap, ◌∙◌, ◌⊎◌, inl, inr, true, false, none, some, List,
  [], ◌∷◌, arith, ltb, ◌==◌, if◌then◌else◌, ==_iff, Bool-cases,
}
use pkg_varnish.Smf.Fronts.{fresh-ne, fresh_at, used_mergeable}
use pkg_varnish.Prelude.Cells.{write, write_at, write_else}
use pkg_varnish.Prelude.Tailq.{count}
use pkg_varnish.Prelude.Adjacent.{
  On, IsOnce, On-first, On-rest, IsOnce-rest, Relation, Adjacent, Adjacent-map,
}
use pkg_varnish.Smf.{Smf, SmfSc, is_at, more_smf}
use pkg_varnish.Smf.Storage.{insert_by_ptr, new_smf}
use pkg_varnish.Smf.Lists.{home, IsListed}
use pkg_varnish.Smf.Ranges.{AreMerged, IsFree, covered, true-ne-false}
use pkg_varnish.Smf.Freeing.{IsSmfSc, free_smf-IsSmfSc}

count-insert_by_ptr :
    (smf : ℕ → Smf) (sp q : ℕ) (l : List ℕ)
    → count q (insert_by_ptr smf sp l) ≡ count q l + (if q == sp then 1 else 0)
unfolding insert_by_ptr count
count-insert_by_ptr smf sp q [] = ground arith
count-insert_by_ptr smf sp q (x ∷ xs) = ground (arith, count-insert_by_ptr smf sp q xs)

module _ (R S : Relation) (smf : ℕ → Smf) (sp : ℕ) where
  Adjacent-insert_by_ptr :
      (l : List ℕ)
      → IsOnce l
      → ((x y : ℕ) → On l x → On l y → R x y → S x y)
      → ((x : ℕ) → On l x → ltb (smf sp).ptr (smf x).ptr ≡ true → S sp x)
      → ((x : ℕ) → On l x → ltb (smf sp).ptr (smf x).ptr ≡ false → S x sp)
      → Adjacent R l
      → Adjacent S (insert_by_ptr smf sp l)
  unfolding insert_by_ptr
  Adjacent-insert_by_ptr [] o k up down a = (tt, tt)
  Adjacent-insert_by_ptr (x ∷ []) o k up down a =
      let on = (On-first x [] o).0 in
      elim (Bool-cases (ltb (smf sp).ptr (smf x).ptr)) [
        | inl here ↦ rw here (up x on here, (tt, tt))
        | inr further ↦ rw further (down x on further, (tt, tt))
      ]
  Adjacent-insert_by_ptr (x ∷ y ∷ ys) o k up down a =
      let on = (On-first x (y ∷ ys) o).0 in
      let o' = IsOnce-rest x (y ∷ ys) o in
      let r = λ (q : ℕ) (h : On (y ∷ ys) q). (On-rest x q (y ∷ ys) o h).0 in
      let y_on = r y (On-first y ys o').0 in
      elim (Bool-cases (ltb (smf sp).ptr (smf x).ptr)) [
        | inl here ↦
            rw here (up x on here, Adjacent-map R S (x ∷ y ∷ ys) o (λ u v hu hv d. k u v hu hv) a)
        | inr further ↦
            let ih =
              Adjacent-insert_by_ptr (y ∷ ys) o' (λ u v hu hv. k u v (r u hu) (r v hv))
                (λ u hu. up u (r u hu)) (λ u hu. down u (r u hu)) a.1 in
            rw further (elim (Bool-cases (ltb (smf sp).ptr (smf y).ptr)) [
              | inl next_one ↦ let ih' = rw next_one at ih in rw next_one (down x on further, ih')
              | inr later ↦ let ih' = rw later at ih in rw later (k x y on y_on a.0, ih')
            ])
      ]

-- The new range, in use.
abbrev busy : SmfSc → ℕ → ℕ → ℕ → ℕ → SmfSc
busy sc ptr off len new =
    let smf =
      write sc.smf new record { alloc = true; size = len; offset = off; ptr = ptr; flist = none } in
    record sc {
      smf = smf;
      order = insert_by_ptr smf new sc.order;
      used = new ∷ sc.used;
      stats = more_smf sc.stats;
    }

-- The ranges in use stay, and the ranges and lists are as before.
abbrev pub Adds : SmfSc → ℕ → ℕ → ℕ → ℕ → Type 0
Adds sc ptr off len new =
    (sc' : SmfSc) × (new_smf sc ptr off len new ≡ some sc')
    × IsSmfSc sc'
    × ((q : ℕ) → count q sc'.used ≡ count q sc.used)
    × ((q : ℕ) → On sc.order q → (sc.smf q).alloc ≡ true → sc'.smf q ≡ sc.smf q)
    × (sc'.pagesize ≡ sc.pagesize)
    × ((p : ℕ) → IsFree sc' p ↔ (IsFree sc p ⊎ ((ptr ≤ p) × (p < ptr + len))))

module _ (sc : SmfSc) (ptr off len new : ℕ) (is : IsSmfSc sc) (fresh : count new sc.order ≡ 0)
    (some_bytes : 0 < len) (pages : len % sc.pagesize ≡ 0)
    (apart : (q : ℕ)
      → On sc.order q
      → ((sc.smf q).ptr + (sc.smf q).size ≤ ptr) ⊎ (ptr + len ≤ (sc.smf q).ptr)) where
  busy_else : (q : ℕ) → On sc.order q → (busy sc ptr off len new).smf q ≡ sc.smf q
  busy_else q on = write_else sc.smf new q _ (λ t. fresh-ne sc q new on fresh (sym t))

  busy_new :
      (busy sc ptr off len new).smf new
      ≡ record { alloc = true; size = len; offset = off; ptr = ptr; flist = none }
  busy_new = write_at sc.smf new _

  busy-IsListed : IsListed none (busy sc ptr off len new)
  unfolding write home count is_at
  busy-IsListed =
      let v = is.0 in
      let c = λ (q : ℕ). count-insert_by_ptr (busy sc ptr off len new).smf new q sc.order in
      record {
        page = v.page;
        once = λ q. let o = v.once q in ground (arith, c q, fresh_at sc.order new q fresh);
        sized = λ q h. let z = v.sized q in ground (arith, c q);
        in_use = λ q. let u = v.in_use q in ground (arith, c q, fresh_at sc.order new q fresh);
        on_free =
            λ q b. let f = v.on_free q b in ground (arith, c q, fresh_at sc.order new q fresh);
        homed = λ q h n. let f = v.homed q in ground (arith, c q, ==_iff q new);
      }

  busy-AreMerged : Adjacent (AreMerged (busy sc ptr off len new)) (busy sc ptr off len new).order
  busy-AreMerged =
      let sc1 = busy sc ptr off len new in
      let u = used_mergeable (sc1.smf new) in
      Adjacent-insert_by_ptr (AreMerged sc) (AreMerged sc1) sc1.smf new sc.order is.0.once
        (λ x y hx hy r. rw (busy_else x hx, busy_else y hy) r)
        (λ x hx lt. (
          (let d = apart x hx in
              let s = is.0.sized x hx in
              let lt' = rw (busy_new, busy_else x hx) at lt in
              rw (busy_new, busy_else x hx) (ground arith)),
          (u (sc1.smf x) (ap (λ s. s.alloc) busy_new)).0,
        ))
        (λ x hx lt. (
          (let d = apart x hx in
              let s = is.0.sized x hx in
              let lt' = rw (busy_new, busy_else x hx) at lt in
              rw (busy_new, busy_else x hx) (ground arith)),
          (u (sc1.smf x) (ap (λ s. s.alloc) busy_new)).1,
        ))
        is.1

  on_busy :
      (q : ℕ)
      → count q (busy sc ptr off len new).order ≡ count q sc.order + (if q == new then 1 else 0)
  on_busy q = count-insert_by_ptr (busy sc ptr off len new).smf new q sc.order

  -- The new range is in use, so the same bytes are free.
  busy-IsFree : (p : ℕ) → IsFree (busy sc ptr off len new) p ↔ IsFree sc p
  busy-IsFree p = (
    λ (q, on, a, lo, hi).
        let d : q ≢ new = (λ t. true-ne-false (
          ap (λ s. s.alloc) (sym busy_new)
          ∙ ap (λ k. ((busy sc ptr off len new).smf k).alloc) (sym t)
          ∙ a)) in
        let on' : On sc.order q = ground (arith, on_busy q) in
        let same = busy_else q on' in
        covered sc q p on' (rw same at a, rw same at lo, rw same at hi),
    λ (q, on, a, lo, hi).
        let d = fresh-ne sc q new on fresh in
        let on' : On (busy sc ptr off len new).order q = ground (arith, on_busy q) in
        covered (busy sc ptr off len new) q p on' (rw (busy_else q on) (a, lo, hi)),
  )

  -- new_smf of storage_file.c: where the ranges lie one behind the other, merged where they can be,
  -- and are on the lists that they belong on, some pages that overlap none of them, at least one and
  -- with a new address, are added without a failed assertion. The ranges and lists are as before, and
  -- so with the new pages merged; the same ranges are in use and do not change; and the bytes that are
  -- free are those that were and those of the new pages.
  pub new_smf-IsSmfSc : Adds sc ptr off len new
  unfolding new_smf
  new_smf-IsSmfSc =
      let sc1 = busy sc ptr off len new in
      let c = count-insert_by_ptr sc1.smf new new sc.order in
      let (sc', e, is', used, same, page, free) =
        free_smf-IsSmfSc sc1 new (busy-IsListed, busy-AreMerged) (ground arith)
          (ap (λ s. s.alloc) busy_new) in
      let t : (len % sc.pagesize == 0) ≡ true = ground arith in
      (
        sc',
        rw t e,
        is',
        λ q.
            let u = is.0.in_use q in
            unfold count in ground (arith, used q, fresh_at sc.order new q fresh),
        λ q on a.
            same q (λ t. fresh-ne sc q new on fresh (sym t))
              (ap (λ s. s.alloc) (busy_else q on) ∙ a)
            ∙ busy_else q on,
        page,
        λ p.
            let (l, r) = free p in
            (
              λ h. elim (l h) [
                | inl f ↦ inl ((busy-IsFree p).0 f)
                | inr i ↦ inr (rw busy_new at i.0, rw busy_new at i.1)
              ],
              λ h. elim h [
                | inl f ↦ r (inl ((busy-IsFree p).1 f))
                | inr i ↦ r (inr (rw busy_new i))
              ],
            ),
      )
